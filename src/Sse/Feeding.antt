-- ===== src/Sse/Feeding.antt =====
-- `SseStreamParser.feed` (map-business-backend/app/services/sse.py), chunk by chunk and all at once.
use map.Base.{ℕ, Option, none, some, List, [], ◌∷◌, ◌++◌, ◌≡◌, refl, sym, ap, ◌∙◌, subst}
use map.Envelope.Canonical.{Text}
use map.Sse.Utf8.{Pending, decode_byte, and_then, emit, decode}
use map.Sse.{
  SseFrame, extract_frames, SseStreamParser, new_parser, extracted, fed, feed, after, feed_all,
  flatten,
}
use map.Sse.Splitting.{NoCrCr}
use map.Sse.Chunks.{followed, extract_frames-append, extract_frames-NoCrCr}
use mathlib.Core.List.{append_assoc, append-nil}

-- Decoding what follows what was decoded.
abbrev resumed : List ℕ → Option (Text × Pending) → Option (Text × Pending)
resumed ys none = none
resumed ys (some (t, s)) = and_then t (decode s ys)

and_then-nil : (o : Option (Text × Pending)) → and_then [] o ≡ o
and_then-nil none = refl
and_then-nil (some (t, s)) = refl

and_then-and_then :
    (a b : Text) (o : Option (Text × Pending)) → and_then a (and_then b o) ≡ and_then (a ++ b) o
and_then-and_then a b none = refl
and_then-and_then a b (some (t, s)) = ap (λ z. some (z, s)) (sym (append_assoc a b t))

and_then-resumed :
    (a : Text) (ys : List ℕ) (o : Option (Text × Pending))
    → and_then a (resumed ys o) ≡ resumed ys (and_then a o)
and_then-resumed a ys none = refl
and_then-resumed a ys (some (t, s)) = and_then-and_then a t (decode s ys)

emit-resumed :
    (f g : Pending → Option (Text × Pending)) (ys : List ℕ) (o : Option (Text × Pending))
    → ((s : Pending) → f s ≡ resumed ys (g s))
    → emit f o ≡ resumed ys (emit g o)
emit-resumed f g ys none h = refl
emit-resumed f g ys (some (t, s)) h = ap (and_then t) (h s) ∙ and_then-resumed t ys (g s)

decode-append : (s : Pending) (xs ys : List ℕ) → decode s (xs ++ ys) ≡ resumed ys (decode s xs)
unfolding decode
decode-append s [] ys = sym (and_then-nil (decode s ys))
decode-append s (x ∷ xs) ys =
    emit-resumed (λ t. decode t (xs ++ ys)) (λ t. decode t xs) ys (decode_byte s x)
      (λ t. decode-append t xs ys)

extracted-followed :
    (s : Pending) (p : List SseFrame × Text) (t : Pending) (u : Text)
    → some (extracted t (followed p u)) ≡ after (λ q. fed q (some (u, t))) (some (extracted s p))
extracted-followed s (fs, r) t u = refl

-- No CR CR comes about when these bytes are decoded after the buffer.
abbrev pub Clear : SseStreamParser → List ℕ → Type 0
Clear p bytes =
    (t : Text) (s : Pending) → decode (p.decoder) bytes ≡ some (t, s) → NoCrCr (p.buffer ++ t)

NoCrCr-left : (w u : Text) → NoCrCr (w ++ u) → NoCrCr w
NoCrCr-left [] u h = tt
NoCrCr-left (c ∷ []) u h = tt
NoCrCr-left (c ∷ d ∷ cs) u h = (h.0, NoCrCr-left (d ∷ cs) u h.1)

-- Two pieces, decoded one after the other.
fed-and_then :
    (p : SseStreamParser) (t : Text) (s : Pending) (o : Option (Text × Pending))
    → ((u : Text) (r : Pending) → o ≡ some (u, r) → NoCrCr (p.buffer ++ (t ++ u)))
    → fed p (and_then t o) ≡ after (λ q. fed q o) (fed p (some (t, s)))
fed-and_then p t s none n = refl
fed-and_then p t s (some (u, r)) n =
    let joined = append_assoc p.buffer t u in
    ap (λ z. some (extracted r (extract_frames z))) (sym joined)
    ∙ (ap (λ z. some (extracted r z))
          (extract_frames-append (p.buffer ++ t) u
            (NoCrCr-left (p.buffer ++ t) u (subst NoCrCr (sym joined) (n u r refl))))
        ∙ extracted-followed s (extract_frames (p.buffer ++ t)) r u)

fed-resumed :
    (p : SseStreamParser) (o : Option (Text × Pending)) (y : ℕ) (ys : List ℕ)
    → ((t : Text) (s : Pending) → resumed (y ∷ ys) o ≡ some (t, s) → NoCrCr (p.buffer ++ t))
    → fed p (resumed (y ∷ ys) o) ≡ after (λ q. feed q (y ∷ ys)) (fed p o)
unfolding feed
fed-resumed p none y ys n = refl
fed-resumed p (some (t, s)) y ys n =
    fed-and_then p t s (decode s (y ∷ ys)) (λ u r e. n (t ++ u) r (ap (and_then t) e))

prefixed-nil :
    (o : Option (List SseFrame × SseStreamParser)) → o ≡ after (λ q. o) (some ([], new_parser))
prefixed-nil none = refl
prefixed-nil (some (fs, q)) = refl

after-feed_nil : (o : Option (List SseFrame × SseStreamParser)) → o ≡ after (λ q. feed q []) o
unfolding feed
after-feed_nil none = refl
after-feed_nil (some (fs, q)) = ap (λ z. some (z, q)) (sym (append-nil fs))

feed-append :
    (p : SseStreamParser) (xs ys : List ℕ)
    → Clear p (xs ++ ys)
    → feed p (xs ++ ys) ≡ after (λ q. feed q ys) (feed p xs)
unfolding feed
feed-append p [] ys n = prefixed-nil (feed p ys)
feed-append p (x ∷ xs) [] n =
    ap (λ z. feed p (x ∷ z)) (append-nil xs) ∙ after-feed_nil (feed p (x ∷ xs))
feed-append p (x ∷ xs) (y ∷ ys) n =
    ap (fed p) (decode-append p.decoder (x ∷ xs) (y ∷ ys))
    ∙ fed-resumed p (decode p.decoder (x ∷ xs)) y ys
        (λ t s h. n t s (decode-append p.decoder (x ∷ xs) (y ∷ ys) ∙ h))

-- What is left to be fed after a chunk is clear too.
abbrev LeftClear : Option (List SseFrame × SseStreamParser) → List ℕ → Type 0
LeftClear none ys = Unit
LeftClear (some (fs, q)) ys = Clear q ys

fed-LeftClear :
    (p : SseStreamParser) (o : Option (Text × Pending)) (ys : List ℕ)
    → ((t : Text) (s : Pending) → resumed ys o ≡ some (t, s) → NoCrCr (p.buffer ++ t))
    → LeftClear (fed p o) ys
fed-LeftClear p none ys n = tt
fed-LeftClear p (some (t, s)) ys n = λ u r e.
    extract_frames-NoCrCr (p.buffer ++ t) u
      (subst NoCrCr (sym (append_assoc p.buffer t u)) (n (t ++ u) r (ap (and_then t) e)))

feed-LeftClear :
    (p : SseStreamParser) (xs ys : List ℕ) → Clear p (xs ++ ys) → LeftClear (feed p xs) ys
unfolding feed
feed-LeftClear p [] ys n = n
feed-LeftClear p (x ∷ xs) ys n =
    fed-LeftClear p (decode p.decoder (x ∷ xs)) ys
      (λ t s h. n t s (decode-append p.decoder (x ∷ xs) ys ∙ h))

after-same :
    (f g : SseStreamParser → Option (List SseFrame × SseStreamParser))
    (o : Option (List SseFrame × SseStreamParser)) (ys : List ℕ)
    → ((q : SseStreamParser) → Clear q ys → f q ≡ g q)
    → LeftClear o ys
    → after f o ≡ after g o
after-same f g none ys h n = refl
after-same f g (some (fs, q)) ys h n = ap (λ z. after (λ r. z) (some (fs, q))) (h q n)

-- Feeding a stream in chunks, however it is cut, gives the frames, the buffer and the decoder that
-- feeding it at once gives, and an error if that does, where no CR CR comes about in the buffer and
-- the decoded text.
pub feed_all-flatten :
    (p : SseStreamParser) (chunks : List (List ℕ))
    → Clear p (flatten chunks)
    → feed_all p chunks ≡ feed p (flatten chunks)
unfolding feed_all flatten
feed_all-flatten p [] n = refl
feed_all-flatten p (chunk ∷ chunks) n =
    after-same (λ q. feed_all q chunks) (λ q. feed q (flatten chunks)) (feed p chunk)
      (flatten chunks) (λ q. feed_all-flatten q chunks) (feed-LeftClear p chunk (flatten chunks) n)
    ∙ sym (feed-append p chunk (flatten chunks) n)
