-- ===== src/Sse/Frames.antt =====
-- A written frame is read back (map-business-backend/app/services/sse.py).
use map.Base.{
  ℕ, Bool, true, false, ◌&&◌, some, List, [], ◌∷◌, ◌++◌, ◌==◌, ◌≡◌, refl, sym, ap, ◌∙◌, subst, All,
  All-append,
}
use map.Envelope.Canonical.{Text, codes}
use map.Sse.{
  normalize, before, split_blank, splitlines, frame_of, frame_of_fields, read_lines, extract_frames,
}
use map.Sse.Splitting.{normalize-other}
use map.Sse.Chunks.{extract_frames-blank}
use map.Sse.Lines.{Inside, Line, Ended, body, lines_of, Inside-no_lf, Inside-no_cr, splitlines-body}
use mathlib.Core.List.{append-nil}

-- Neither two line feeds together nor one at the end.
abbrev Solid : Text → Type 0
Solid [] = Unit
Solid (c ∷ []) = (c == 10) ≡ false
Solid (c ∷ d ∷ cs) = (((c == 10) && (d == 10)) ≡ false) × Solid (d ∷ cs)

Solid-other : (c : ℕ) (w : Text) → (c == 10) ≡ false → Solid w → Solid (c ∷ w)
Solid-other c [] h k = h
Solid-other c (d ∷ w) h k = (rw h refl, k)

Solid-Inside : (l w : Text) → All Inside l → Solid w → Solid (l ++ w)
Solid-Inside [] w h k = k
Solid-Inside (c ∷ cs) w h k = Solid-other c (cs ++ w) (Inside-no_lf c h.0) (Solid-Inside cs w h.1 k)

-- A line after an ending.
Solid-Ending : (e : ℕ) (l w : Text) → Line l → Solid (l ++ w) → Solid (e ∷ (l ++ w))
Solid-Ending e [] w h k = cc
Solid-Ending e (c ∷ cs) w h k = (and-false (e == 10) (c == 10) (Inside-no_lf c h.0), k)
  where
    and-false : (a b : Bool) → b ≡ false → (a && b) ≡ false
    and-false true b h = h
    and-false false b h = refl

Line-Inside : (l : Text) → Line l → All Inside l
Line-Inside [] h = tt
Line-Inside (c ∷ cs) h = h

Line-Solid : (l : Text) → Line l → Solid l
Line-Solid l h = subst Solid (append-nil l) (Solid-Inside l [] (Line-Inside l h) tt)

mutual
  body-Solid : (ls : List (Text × ℕ)) (last : Text) → Ended ls → Line last → Solid (body ls last)
  body-Solid [] last h k = Line-Solid last k
  body-Solid ((l, e) ∷ ls) last h k =
      Solid-Inside l (e ∷ body ls last) (Line-Inside l h.0.0) (ended-Solid e ls last h.1 k)

  ended-Solid :
      (e : ℕ) (ls : List (Text × ℕ)) (last : Text) → Ended ls → Line last → Solid (e ∷ body ls last)
  ended-Solid e [] last h k =
      subst (λ z. Solid (e ∷ z)) (append-nil last)
        (Solid-Ending e last [] k (subst Solid (sym (append-nil last)) (Line-Solid last k)))
  ended-Solid e ((l, f) ∷ ls) last h k =
      Solid-Ending e l (f ∷ body ls last) h.0.0
        (Solid-Inside l (f ∷ body ls last) (Line-Inside l h.0.0) (ended-Solid f ls last h.1 k))

split-Solid : (b rest : Text) → Solid b → split_blank (b ++ 10 ∷ 10 ∷ rest) ≡ some (b, rest)
unfolding split_blank
split-Solid [] rest h = refl
split-Solid (c ∷ []) rest h = rw h refl
split-Solid (c ∷ d ∷ cs) rest h = rw h.0 (ap (before c) (split-Solid (d ∷ cs) rest h.1))

-- No carriage return at all.
abbrev NoCr : Text → Type 0
NoCr = All (λ c. (c == 13) ≡ false)

Inside-NoCr : (l : Text) → All Inside l → NoCr l
Inside-NoCr [] h = tt
Inside-NoCr (c ∷ cs) h = (Inside-no_cr c h.0, Inside-NoCr cs h.1)

body-NoCr : (ls : List (Text × ℕ)) (last : Text) → Ended ls → Line last → NoCr (body ls last)
body-NoCr [] last h k = Inside-NoCr last (Line-Inside last k)
body-NoCr ((l, e) ∷ ls) last h k =
    All-append (λ c. (c == 13) ≡ false) l (e ∷ body ls last) (Inside-NoCr l (Line-Inside l h.0.0))
      (h.0.1.1, body-NoCr ls last h.1 k)

normalize-NoCr : (w u : Text) → NoCr w → normalize (w ++ u) ≡ w ++ normalize u
normalize-NoCr [] u h = refl
normalize-NoCr (c ∷ cs) u h =
    normalize-other c (cs ++ u) h.0 ∙ ap (λ z. c ∷ z) (normalize-NoCr cs u h.1)

normalize-blank : (u : Text) → normalize (10 ∷ 10 ∷ u) ≡ 10 ∷ 10 ∷ normalize u
normalize-blank u = normalize-other 10 (10 ∷ u) refl ∙ ap (λ z. 10 ∷ z) (normalize-other 10 u refl)

frame_of-lines :
    (b : Text) (ls : List Text)
    → splitlines b ≡ ls
    → frame_of b ≡ frame_of_fields (read_lines (codes "message", []) ls)
unfolding frame_of
frame_of-lines b ls h = ap (λ z. frame_of_fields (read_lines (codes "message", []) z)) h

-- A frame that is put together of lines is extracted as these lines are read, before the rest.
pub extract_frames-body :
    (ls : List (Text × ℕ)) (last rest : Text)
    → Ended ls
    → Line last
    → extract_frames (body ls last ++ 10 ∷ 10 ∷ rest) ≡ (
      frame_of_fields (read_lines (codes "message", []) (lines_of ls last))
          ∷ (extract_frames rest).0,
      (extract_frames rest).1,
    )
extract_frames-body ls last rest h k =
    extract_frames-blank (body ls last ++ 10 ∷ 10 ∷ rest) (body ls last) rest (
      ap split_blank (
        normalize-NoCr (body ls last) (10 ∷ 10 ∷ rest) (body-NoCr ls last h k)
        ∙ ap (λ z. body ls last ++ z) (normalize-blank rest))
      ∙ split-Solid (body ls last) (normalize rest) (body-Solid ls last h k))
    ∙ ap (λ z. (z ∷ (extract_frames rest).0, (extract_frames rest).1))
        (frame_of-lines (body ls last) (lines_of ls last) (splitlines-body ls last h k))
