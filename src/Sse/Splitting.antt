-- ===== src/Sse/Splitting.antt =====
-- `_extract_frames` of map-business-backend/app/services/sse.py on a text and what follows it.
use map.Base.{
  ℕ, true, false, ◌&&◌, Option, none, some, [], ◌∷◌, ◌++◌, ◌==◌, ◌≡◌, refl, sym, ap, ◌∙◌, subst,
  arith, Bool-cases, inl, inr,
}
use map.Envelope.Canonical.{Text}
use map.Sse.{normalize, before, split_blank}

-- No carriage return stands before a line feed.
abbrev pub NoCrLf : Text → Type 0
NoCrLf [] = Unit
NoCrLf (c ∷ []) = Unit
NoCrLf (c ∷ d ∷ cs) = (((c == 13) && (d == 10)) ≡ false) × NoCrLf (d ∷ cs)

-- No carriage return stands before another.
abbrev pub NoCrCr : Text → Type 0
NoCrCr [] = Unit
NoCrCr (c ∷ []) = Unit
NoCrCr (c ∷ d ∷ cs) = (((c == 13) && (d == 13)) ≡ false) × NoCrCr (d ∷ cs)

-- A character that is not the carriage return of a CR LF stays.
normalize-keep :
    (c d : ℕ) (cs : Text)
    → ((c == 13) && (d == 10)) ≡ false
    → normalize (c ∷ d ∷ cs) ≡ c ∷ normalize (d ∷ cs)
unfolding normalize
normalize-keep c d cs h = rw h refl

pub normalize-other :
    (c : ℕ) (cs : Text) → (c == 13) ≡ false → normalize (c ∷ cs) ≡ c ∷ normalize cs
unfolding normalize
normalize-other c [] h = refl
normalize-other c (d ∷ cs) h = rw h refl

normalize-crlf :
    (c d : ℕ) (cs : Text)
    → ((c == 13) && (d == 10)) ≡ true
    → normalize (c ∷ d ∷ cs) ≡ 10 ∷ normalize cs
unfolding normalize
normalize-crlf c d cs h = rw h refl

NoCrCr-tail : (c : ℕ) (cs : Text) → NoCrCr (c ∷ cs) → NoCrCr cs
NoCrCr-tail c [] h = tt
NoCrCr-tail c (d ∷ cs) h = h.1

other_cr : (c d : ℕ) → (c == 13) ≡ true → ((c == 13) && (d == 13)) ≡ false → (d == 13) ≡ false
other_cr c d e h = ground arith

-- Normalizing twice, with more text in between, is normalizing once.
pub normalize-append : (w u : Text) → NoCrCr w → normalize (normalize w ++ u) ≡ normalize (w ++ u)
unfolding normalize
normalize-append [] u h = refl
normalize-append (c ∷ []) u h = refl
normalize-append (c ∷ d ∷ cs) u h = elim (Bool-cases ((c == 13) && (d == 10))) [
  | inl e ↦
      ap (λ z. normalize (z ++ u)) (normalize-crlf c d cs e)
      ∙ (normalize-other 10 (normalize cs ++ u) refl
          ∙ (ap (λ z. 10 ∷ z) (normalize-append cs u (NoCrCr-tail d cs h.1))
              ∙ sym (normalize-crlf c d (cs ++ u) e)))
  | inr e ↦
      ap (λ z. normalize (z ++ u)) (normalize-keep c d cs e)
      ∙ (elim (Bool-cases (c == 13)) [
        | inl t ↦
            let other = normalize-other d cs (other_cr c d t h.0) in
            ap (λ z. normalize (c ∷ (z ++ u))) other
            ∙ (normalize-keep c d (normalize cs ++ u) e
                ∙ sym (ap (λ z. c ∷ normalize (z ++ u)) other))
        | inr f ↦ normalize-other c (normalize (d ∷ cs) ++ u) f
      ]
          ∙ (ap (λ z. c ∷ z) (normalize-append (d ∷ cs) u h.1)
              ∙ sym (normalize-keep c d (cs ++ u) e)))
]

NoCrLf-other : (c : ℕ) (cs : Text) → (c == 13) ≡ false → NoCrLf cs → NoCrLf (c ∷ cs)
NoCrLf-other c [] h k = tt
NoCrLf-other c (d ∷ cs) h k = (rw h refl, k)

NoCrLf-tail : (c : ℕ) (cs : Text) → NoCrLf (c ∷ cs) → NoCrLf cs
NoCrLf-tail c [] h = tt
NoCrLf-tail c (d ∷ cs) h = h.1

pub normalize-NoCrLf : (w : Text) → NoCrCr w → NoCrLf (normalize w)
unfolding normalize
normalize-NoCrLf [] h = tt
normalize-NoCrLf (c ∷ []) h = tt
normalize-NoCrLf (c ∷ d ∷ cs) h = elim (Bool-cases ((c == 13) && (d == 10))) [
  | inl e ↦
      subst NoCrLf (sym (normalize-crlf c d cs e))
        (NoCrLf-other 10 (normalize cs) refl (normalize-NoCrLf cs (NoCrCr-tail d cs h.1)))
  | inr e ↦ subst NoCrLf (sym (normalize-keep c d cs e)) (elim (Bool-cases (c == 13)) [
    | inl t ↦
        let other = normalize-other d cs (other_cr c d t h.0) in
        subst (λ z. NoCrLf (c ∷ z)) (sym other)
          (e, subst NoCrLf other (normalize-NoCrLf (d ∷ cs) h.1))
    | inr f ↦ NoCrLf-other c (normalize (d ∷ cs)) f (normalize-NoCrLf (d ∷ cs) h.1)
  ])
]

split-here :
    (c d : ℕ) (cs : Text)
    → ((c == 10) && (d == 10)) ≡ true
    → split_blank (c ∷ d ∷ cs) ≡ some ([], cs)
unfolding split_blank
split-here c d cs h = rw h refl

split-later :
    (c d : ℕ) (cs : Text)
    → ((c == 10) && (d == 10)) ≡ false
    → split_blank (c ∷ d ∷ cs) ≡ before c (split_blank (d ∷ cs))
unfolding split_blank
split-later c d cs h = rw h refl

-- A blank line is found again when more text follows.
abbrev Found : Text → Text → Text → Text → Type 0
Found y u a r = (split_blank (normalize (y ++ u)) ≡ some (a, normalize (r ++ u))) × NoCrLf r

split-before :
    (c : ℕ) (o : Option (Text × Text)) (a r : Text)
    → before c o ≡ some (a, r)
    → (b : Text) × (a ≡ c ∷ b) × (o ≡ some (b, r))
split-before c none a r h = cc
split-before c (some (b, s)) a r h = (b, cc, cc)

split-Found_here :
    (c d : ℕ) (cs u a r : Text)
    → ((c == 10) && (d == 10)) ≡ true
    → split_blank (c ∷ d ∷ cs) ≡ some (a, r)
    → NoCrLf (c ∷ d ∷ cs)
    → Found (c ∷ d ∷ cs) u a r
split-Found_here c d cs u a r e h n =
    let same = sym (split-here c d cs e) ∙ h in
    let kept : normalize (c ∷ d ∷ (cs ++ u)) ≡ c ∷ d ∷ normalize (cs ++ u) =
      normalize-other c (d ∷ (cs ++ u)) (ground arith)
      ∙ ap (λ z. c ∷ z) (normalize-other d (cs ++ u) (ground arith)) in
    let tail : cs ≡ r = cc in
    let nil : [] ≡ a = cc in
    (
      ap split_blank kept
          ∙ (split-here c d (normalize (cs ++ u)) e
              ∙ (ap (λ z. some (z, normalize (cs ++ u))) nil
                  ∙ ap (λ z. some (a, normalize (z ++ u))) tail)),
      subst NoCrLf tail (NoCrLf-tail d cs n.1),
    )

pub split-Found : (y u a r : Text) → split_blank y ≡ some (a, r) → NoCrLf y → Found y u a r
unfolding split_blank
split-Found [] u a r h n = cc
split-Found (c ∷ []) u a r h n = cc
split-Found (c ∷ d ∷ []) u a r h n = elim (Bool-cases ((c == 10) && (d == 10))) [
  | inl e ↦ split-Found_here c d [] u a r e h n
  | inr e ↦
      let (b, ab, hb) =
        split-before c (split_blank (d ∷ [])) a r (sym (split-later c d [] e) ∙ h) in
      let absurd : split_blank (d ∷ []) ≡ some (b, r) = hb in cc
]
split-Found (c ∷ d ∷ e ∷ cs) u a r h n = elim (Bool-cases ((c == 10) && (d == 10))) [
  | inl t ↦ split-Found_here c d (e ∷ cs) u a r t h n
  | inr f ↦
      let (b, ab, hb) =
        split-before c (split_blank (d ∷ e ∷ cs)) a r (sym (split-later c d (e ∷ cs) f) ∙ h) in
      let (ih, nr) = split-Found (d ∷ e ∷ cs) u b r hb n.1 in
      let kept = normalize-keep d e (cs ++ u) n.1.0 in
      (
        ap split_blank (normalize-keep c d (e ∷ (cs ++ u)) n.0 ∙ ap (λ z. c ∷ z) kept)
            ∙ (split-later c d (normalize (e ∷ (cs ++ u))) f
                ∙ (ap (before c) (ap split_blank (sym kept) ∙ ih)
                    ∙ ap (λ z. some (z, normalize (r ++ u))) (sym ab))),
        nr,
      )
]

NoCrCr-other : (c : ℕ) (cs : Text) → (c == 13) ≡ false → NoCrCr cs → NoCrCr (c ∷ cs)
NoCrCr-other c [] h k = tt
NoCrCr-other c (d ∷ cs) h k = (rw h refl, k)

-- Normalizing brings no two carriage returns together.
pub normalize-NoCrCr : (w u : Text) → NoCrCr (w ++ u) → NoCrCr (normalize w ++ u)
unfolding normalize
normalize-NoCrCr [] u h = h
normalize-NoCrCr (c ∷ []) u h = h
normalize-NoCrCr (c ∷ d ∷ cs) u h = elim (Bool-cases ((c == 13) && (d == 10))) [
  | inl e ↦
      subst (λ z. NoCrCr (z ++ u)) (sym (normalize-crlf c d cs e))
        (NoCrCr-other 10 (normalize cs ++ u) refl
          (normalize-NoCrCr cs u (NoCrCr-tail d (cs ++ u) h.1)))
  | inr e ↦
      let rest = normalize-NoCrCr (d ∷ cs) u h.1 in
      subst (λ z. NoCrCr (z ++ u)) (sym (normalize-keep c d cs e))
        (elim (Bool-cases (c == 13)) [
          | inl t ↦
              let other = normalize-other d cs (other_cr c d t h.0) in
              subst (λ z. NoCrCr (c ∷ (z ++ u))) (sym other)
                (h.0, subst (λ z. NoCrCr (z ++ u)) other rest)
          | inr f ↦ NoCrCr-other c (normalize (d ∷ cs) ++ u) f rest
        ])
]

pub split-NoCrCr :
    (y u a r : Text) → split_blank y ≡ some (a, r) → NoCrCr (y ++ u) → NoCrCr (r ++ u)
unfolding split_blank
split-NoCrCr [] u a r h n = cc
split-NoCrCr (c ∷ []) u a r h n = cc
split-NoCrCr (c ∷ d ∷ cs) u a r h n = elim (Bool-cases ((c == 10) && (d == 10))) [
  | inl e ↦
      let same = sym (split-here c d cs e) ∙ h in
      let tail : cs ≡ r = cc in subst (λ z. NoCrCr (z ++ u)) tail (NoCrCr-tail d (cs ++ u) n.1)
  | inr f ↦
      let (b, ab, hb) =
        split-before c (split_blank (d ∷ cs)) a r (sym (split-later c d cs f) ∙ h) in
      split-NoCrCr (d ∷ cs) u b r hb n.1
]
