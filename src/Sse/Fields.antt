-- ===== src/Sse/Fields.antt =====
-- The lines of an event's frame (map-business-backend/app/runtime/event_envelope.py), as sse.py reads them.
use map.Base.{
  ℕ, String, Bool, true, false, ◌&&◌, ◌||◌, List, [], ◌∷◌, ◌++◌, ◌==◌, leb, str_eq, eq_iff, ◌≡◌,
  refl, ap, ◌∙◌, subst, arith, Bool-cases, inl, inr, All, &&-eq-true,
}
use map.StateMachine.{contains}
use map.Effects.Guard.{is_space}
use map.Envelope.Canonical.{Text, codes}
use map.Envelope.Fields.{frozen_event_types}
use map.Sse.{lstrip, rstrip, onto_stripped, strip, read_line}
use map.Sse.Lines.{Inside}

-- What `str.strip` leaves as it is.
abbrev pub Trimmed : Text → Type 0
Trimmed t = (lstrip t ≡ t) × (rstrip t ≡ t)

strip-Trimmed : (t : Text) → Trimmed t → strip (32 ∷ t) ≡ t
unfolding strip
strip-Trimmed t (l, r) = ap rstrip l ∙ r

pub read_line-event :
    (s : Text × List Text) (t : Text) → Trimmed t → read_line s (codes "event: " ++ t) ≡ (t, s.1)
unfolding read_line codes
read_line-event s t h = ap (λ z. (z, s.1)) (strip-Trimmed t h)

pub read_line-data :
    (s : Text × List Text) (t : Text)
    → Trimmed t
    → read_line s (codes "data: " ++ t) ≡ (s.0, s.1 ++ t ∷ [])
unfolding read_line codes
read_line-data s t h = ap (λ z. (s.0, s.1 ++ z ∷ [])) (strip-Trimmed t h)

pub read_line-id : (s : Text × List Text) (t : Text) → read_line s (codes "id: " ++ t) ≡ s
unfolding read_line codes
read_line-id s t = refl

onto_stripped-cons : (c : ℕ) (t : Text) (d : ℕ) → onto_stripped c (t ++ d ∷ []) ≡ c ∷ (t ++ d ∷ [])
onto_stripped-cons c [] d = refl
onto_stripped-cons c (x ∷ t) d = refl

rstrip-ends : (t : Text) (d : ℕ) → is_space d ≡ false → rstrip (t ++ d ∷ []) ≡ t ++ d ∷ []
unfolding rstrip
rstrip-ends [] d h = rw h refl
rstrip-ends (c ∷ t) d h = ap (onto_stripped c) (rstrip-ends t d h) ∙ onto_stripped-cons c t d

-- A text between two characters that are no spaces.
pub between-Trimmed :
    (a : ℕ) (t : Text) (b : ℕ) → is_space a ≡ false → is_space b ≡ false → Trimmed (a ∷ t ++ b ∷ [])
unfolding lstrip
between-Trimmed a t b ha hb = (rw ha refl, rstrip-ends (a ∷ t) b hb)

-- The characters of event types.
abbrev in_word : ℕ → Bool
in_word c = (leb 97 c && leb c 122) || (c == 46 || c == 95)

is_word : Text → Bool
is_word [] = true
is_word (c ∷ cs) = in_word c && is_word cs

abbrev all_words : List String → Bool
all_words [] = true
all_words (s ∷ ss) = is_word (codes s) && all_words ss

in_word-Inside : (c : ℕ) → in_word c ≡ true → Inside c
in_word-Inside c h = ground arith

in_word-no_space : (c : ℕ) → in_word c ≡ true → is_space c ≡ false
unfolding is_space
in_word-no_space c h = ground arith

is_word-Inside : (t : Text) → is_word t ≡ true → All Inside t
unfolding is_word
is_word-Inside [] h = tt
is_word-Inside (c ∷ cs) h =
    let (a, b) = &&-eq-true (in_word c) (is_word cs) h in (in_word-Inside c a, is_word-Inside cs b)

onto_stripped-keep : (c : ℕ) (t : Text) → is_space c ≡ false → onto_stripped c t ≡ c ∷ t
onto_stripped-keep c [] h = rw h refl
onto_stripped-keep c (d ∷ t) h = refl

rstrip-word : (t : Text) → is_word t ≡ true → rstrip t ≡ t
unfolding rstrip is_word
rstrip-word [] h = refl
rstrip-word (c ∷ cs) h =
    let (a, b) = &&-eq-true (in_word c) (is_word cs) h in
    ap (onto_stripped c) (rstrip-word cs b) ∙ onto_stripped-keep c cs (in_word-no_space c a)

lstrip-word : (t : Text) → is_word t ≡ true → lstrip t ≡ t
unfolding lstrip is_word
lstrip-word [] h = refl
lstrip-word (c ∷ cs) h = rw (in_word-no_space c (&&-eq-true (in_word c) (is_word cs) h).0) refl

contains-word :
    (s : String) (ss : List String)
    → contains s ss ≡ true
    → all_words ss ≡ true
    → is_word (codes s) ≡ true
unfolding contains
contains-word s [] h k = cc
contains-word s (x ∷ ss) h k =
    let (a, b) = &&-eq-true (is_word (codes x)) (all_words ss) k in
    elim (Bool-cases (str_eq x s)) [
      | inl e ↦ subst (λ z. is_word (codes z) ≡ true) ((eq_iff x s).0 e) a
      | inr e ↦ contains-word s ss (subst (λ z. (z || contains s ss) ≡ true) e h) b
    ]

frozen-word : (s : String) → contains s frozen_event_types ≡ true → is_word (codes s) ≡ true
unfolding is_word codes
frozen-word s h = contains-word s frozen_event_types h refl

pub frozen-Inside : (s : String) → contains s frozen_event_types ≡ true → All Inside (codes s)
frozen-Inside s h = is_word-Inside (codes s) (frozen-word s h)

pub frozen-Trimmed : (s : String) → contains s frozen_event_types ≡ true → Trimmed (codes s)
frozen-Trimmed s h =
    (lstrip-word (codes s) (frozen-word s h), rstrip-word (codes s) (frozen-word s h))
