-- ===== src/Sse/Lines.antt =====
-- `str.splitlines` and `str.strip` as map-business-backend/app/services/sse.py uses them, on lines that are known.
use map.Base.{ℕ, true, false, List, [], ◌∷◌, ◌++◌, ◌==◌, ◌≡◌, refl, ap, ◌∙◌, arith, All}
use map.Envelope.Canonical.{Text}
use map.Sse.{is_break, onto_line, splitlines}

-- A character that ends no line.
abbrev pub Inside : ℕ → Type 0
Inside c = is_break c ≡ false

-- A line's text: not empty, and no character of it ends a line.
abbrev pub Line : Text → Type 0
Line [] = true ≡ false
Line (c ∷ cs) = All Inside (c ∷ cs)

-- A character that ends a line, other than the carriage return.
abbrev pub Ending : ℕ → Type 0
Ending c = (is_break c ≡ true) × ((c == 13) ≡ false)

abbrev pub Ended : List (Text × ℕ) → Type 0
Ended [] = Unit
Ended ((l, e) ∷ ls) = (Line l × Ending e) × Ended ls

-- The lines with their endings, and the last line without.
abbrev pub body : List (Text × ℕ) → Text → Text
body [] last = last
body ((l, e) ∷ ls) last = l ++ e ∷ body ls last

abbrev pub lines_of : List (Text × ℕ) → Text → List Text
lines_of [] last = last ∷ []
lines_of ((l, e) ∷ ls) last = l ∷ lines_of ls last

pub Inside-no_lf : (c : ℕ) → Inside c → (c == 10) ≡ false
Inside-no_lf c h = ground arith

pub Inside-no_cr : (c : ℕ) → Inside c → (c == 13) ≡ false
Inside-no_cr c h = ground arith

splitlines-Inside :
    (c d : ℕ) (cs : Text) → Inside c → splitlines (c ∷ d ∷ cs) ≡ onto_line c (splitlines (d ∷ cs))
unfolding splitlines
splitlines-Inside c d cs h = rw (Inside-no_cr c h, h) refl

splitlines-Ending :
    (c d : ℕ) (cs : Text) → Ending c → splitlines (c ∷ d ∷ cs) ≡ [] ∷ splitlines (d ∷ cs)
unfolding splitlines
splitlines-Ending c d cs (b, n) = rw (n, b) refl

splitlines-last : (c : ℕ) (cs : Text) → All Inside (c ∷ cs) → splitlines (c ∷ cs) ≡ (c ∷ cs) ∷ []
unfolding splitlines
splitlines-last c [] h = rw h.0 refl
splitlines-last c (d ∷ cs) h =
    splitlines-Inside c d cs h.0 ∙ ap (onto_line c) (splitlines-last d cs h.1)

splitlines-line :
    (l : Text) (e d : ℕ) (w : Text)
    → All Inside l
    → Ending e
    → splitlines (l ++ e ∷ d ∷ w) ≡ l ∷ splitlines (d ∷ w)
splitlines-line [] e d w h k = splitlines-Ending e d w k
splitlines-line (c ∷ []) e d w h k =
    splitlines-Inside c e (d ∷ w) h.0 ∙ ap (onto_line c) (splitlines-Ending e d w k)
splitlines-line (c ∷ f ∷ l) e d w h k =
    splitlines-Inside c f (l ++ e ∷ d ∷ w) h.0
    ∙ ap (onto_line c) (splitlines-line (f ∷ l) e d w h.1 k)

-- A text that starts with a line's character.
abbrev Starts : Text → Type 0
Starts [] = true ≡ false
Starts (c ∷ cs) = Inside c

Line-Starts : (l w : Text) → Line l → Starts (l ++ w)
Line-Starts [] w h = cc
Line-Starts (c ∷ cs) w h = h.0

Line-All : (l : Text) → Line l → All Inside l
Line-All [] h = tt
Line-All (c ∷ cs) h = h

body-Starts : (ls : List (Text × ℕ)) (last : Text) → Ended ls → Line last → Starts (body ls last)
body-Starts [] [] h k = cc
body-Starts [] (c ∷ cs) h k = k.0
body-Starts ((l, e) ∷ ls) last h k = Line-Starts l (e ∷ body ls last) h.0.0

splitlines-next :
    (l : Text) (e : ℕ) (w : Text)
    → All Inside l
    → Ending e
    → Starts w
    → splitlines (l ++ e ∷ w) ≡ l ∷ splitlines w
splitlines-next l e [] h k s = cc
splitlines-next l e (d ∷ w) h k s = splitlines-line l e d w h k

-- The lines of a text are the lines that it was put together of.
pub splitlines-body :
    (ls : List (Text × ℕ)) (last : Text)
    → Ended ls
    → Line last
    → splitlines (body ls last) ≡ lines_of ls last
splitlines-body [] [] h k = cc
splitlines-body [] (c ∷ cs) h k = splitlines-last c cs k
splitlines-body ((l, e) ∷ ls) last h k =
    splitlines-next l e (body ls last) (Line-All l h.0.0) h.0.1 (body-Starts ls last h.1 k)
    ∙ ap (λ z. l ∷ z) (splitlines-body ls last h.1 k)
