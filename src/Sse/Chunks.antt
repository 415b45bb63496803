-- ===== src/Sse/Chunks.antt =====
-- `SseStreamParser` (map-business-backend/app/services/sse.py) fed in pieces.
use map.Base.{
  ℕ, zero, suc, ◌≤◌, Bool, true, false, ◌&&◌, Option, none, some, List, [], ◌∷◌, ◌++◌, ◌==◌, length,
  if◌then◌else◌, ◌≡◌, refl, sym, ap, ◌∙◌, subst, arith, Option-cases, inl, inr,
}
use map.Envelope.Canonical.{Text}
use map.Sse.{
  SseFrame, normalize, before, split_blank, and_frames, extract_loop, turn, extract_frames,
}
use map.Sse.Splitting.{
  NoCrLf, NoCrCr, normalize-append, normalize-NoCrLf, normalize-NoCrCr, split-NoCrCr, split-Found,
}

split-shorter : (y a r : Text) → split_blank y ≡ some (a, r) → suc (length r) ≤ length y
unfolding split_blank
split-shorter [] a r h = cc
split-shorter (c ∷ []) a r h = cc
split-shorter (c ∷ d ∷ cs) a r h =
    shorter c cs (split_blank (d ∷ cs)) ((c == 10) && (d == 10)) a r h
      (λ b s k. split-shorter (d ∷ cs) b s k)
  where
    shorter :
        (c : ℕ) (cs : Text) (o : Option (Text × Text)) (b : Bool) (a r : Text)
        → (if b then some ([], cs) else before c o) ≡ some (a, r)
        → ((b s : Text) → o ≡ some (b, s) → suc (length s) ≤ suc (length cs))
        → suc (length r) ≤ suc (suc (length cs))
    shorter c cs o true a r h k =
        let e : cs ≡ r = cc in subst (λ z. suc (length z) ≤ suc (suc (length cs))) e (omega arith)
    shorter c cs none false a r h k = cc
    shorter c cs (some (b, s)) false a r h k =
        let e : s ≡ r = cc in
        let le = k b s refl in
        subst (λ z. suc (length z) ≤ suc (suc (length cs))) e (omega (arith, le))

none_left {ℓ} : {A : Type ℓ} (n : ℕ) → suc n ≤ 0 → A
none_left n h = let absurd : ⊥ = omega (arith, h) in elim absurd [ ]

loop-none : (f : ℕ) (y : Text) → split_blank y ≡ none → extract_loop f y ≡ ([], y)
unfolding extract_loop
loop-none zero y h = refl
loop-none (suc f) y h = ap (turn (extract_loop f) y) h

loop-some :
    (f : ℕ) (y a r : Text)
    → split_blank y ≡ some (a, r)
    → extract_loop (suc f) y ≡ and_frames a (extract_loop f r)
unfolding extract_loop
loop-some f y a r h = ap (turn (extract_loop f) y) h

-- Any fuel that is as long as the text gives the same.
pub loop-fuel :
    (f g : ℕ) (y : Text) → length y ≤ f → length y ≤ g → extract_loop f y ≡ extract_loop g y
unfolding split_blank
loop-fuel zero g [] hf hg = loop-none 0 [] refl ∙ sym (loop-none g [] refl)
loop-fuel zero g (c ∷ cs) hf hg = none_left (length cs) hf
loop-fuel (suc f) zero [] hf hg = loop-none (suc f) [] refl ∙ sym (loop-none 0 [] refl)
loop-fuel (suc f) zero (c ∷ cs) hf hg = none_left (length cs) hg
loop-fuel (suc f) (suc g) y hf hg = elim (Option-cases (split_blank y)) [
  | inl h ↦ loop-none (suc f) y h ∙ sym (loop-none (suc g) y h)
  | inr ((a, r), h) ↦
      let le = split-shorter y a r h in
      loop-some f y a r h
      ∙ (ap (and_frames a) (loop-fuel f g r (omega (arith, le, hf)) (omega (arith, le, hg)))
          ∙ sym (loop-some g y a r h))
]

-- The loop at a blank line, at every fuel that is enough.
pub loop-blank :
    (g : ℕ) (y a r : Text)
    → split_blank y ≡ some (a, r)
    → length y ≤ g
    → extract_loop g y ≡ and_frames a (extract_loop (length r) r)
loop-blank zero y a r h hg =
    let le = split-shorter y a r h in none_left (length r) (omega (arith, le, hg))
loop-blank (suc g) y a r h hg =
    let le = split-shorter y a r h in
    loop-some g y a r h
    ∙ ap (and_frames a) (loop-fuel g (length r) r (omega (arith, le, hg)) (omega arith))

pub extract_frames-blank :
    (w a v : Text)
    → split_blank (normalize w) ≡ some (a, normalize v)
    → extract_frames w ≡ and_frames a (extract_frames v)
unfolding extract_frames
extract_frames-blank w a v h =
    loop-blank (length (normalize w)) (normalize w) a (normalize v) h (omega arith)

abbrev pub and_all : List SseFrame → List SseFrame × Text → List SseFrame × Text
and_all fs (gs, r) = (fs ++ gs, r)

-- What is extracted when more text follows what was extracted.
abbrev pub followed : List SseFrame × Text → Text → List SseFrame × Text
followed (fs, r) u = and_all fs (extract_frames (r ++ u))

and_frames-followed :
    (a : Text) (p : List SseFrame × Text) (u : Text)
    → and_frames a (followed p u) ≡ followed (and_frames a p) u
and_frames-followed a (fs, r) u = refl

loop-append :
    (f : ℕ) (y u : Text)
    → NoCrLf y
    → length y ≤ f
    → extract_frames (y ++ u) ≡ followed (extract_loop f y) u
unfolding split_blank
loop-append zero [] u n h = ap (λ z. followed z u) (sym (loop-none 0 [] refl))
loop-append zero (c ∷ cs) u n h = none_left (length cs) h
loop-append (suc f) y u n h = elim (Option-cases (split_blank y)) [
  | inl e ↦ ap (λ z. followed z u) (sym (loop-none (suc f) y e))
  | inr ((a, r), e) ↦
      let le = split-shorter y a r e in
      let (found, nr) = split-Found y u a r e n in
      extract_frames-blank (y ++ u) a (r ++ u) found
      ∙ (ap (and_frames a) (loop-append f r u nr (omega (arith, le, h)))
          ∙ (and_frames-followed a (extract_loop f r) u
              ∙ ap (λ z. followed z u) (sym (loop-some f y a r e))))
]

-- More text after a text without CR CR is extracted as it is from what that text leaves.
pub extract_frames-append :
    (w u : Text) → NoCrCr w → extract_frames (w ++ u) ≡ followed (extract_frames w) u
unfolding extract_frames
extract_frames-append w u n =
    ap (λ y. extract_loop (length y) y) (sym (normalize-append w u n))
    ∙ loop-append (length (normalize w)) (normalize w) u (normalize-NoCrLf w n) (omega arith)

loop-NoCrCr : (f : ℕ) (y u : Text) → NoCrCr (y ++ u) → NoCrCr ((extract_loop f y).1 ++ u)
unfolding extract_loop
loop-NoCrCr zero y u n = n
loop-NoCrCr (suc f) y u n = elim (Option-cases (split_blank y)) [
  | inl e ↦ subst (λ z. NoCrCr (z.1 ++ u)) (sym (loop-none (suc f) y e)) n
  | inr ((a, r), e) ↦
      subst (λ z. NoCrCr (z.1 ++ u)) (sym (loop-some f y a r e))
        (loop-NoCrCr f r u (split-NoCrCr y u a r e n))
]

-- What is left of a text brings no CR CR about that was not there.
pub extract_frames-NoCrCr : (w u : Text) → NoCrCr (w ++ u) → NoCrCr ((extract_frames w).1 ++ u)
unfolding extract_frames
extract_frames-NoCrCr w u n =
    loop-NoCrCr (length (normalize w)) (normalize w) u (normalize-NoCrCr w u n)
