-- ===== src/Sse/Examples.antt =====
-- Concrete streams (map-business-backend/app/services/sse.py) and the theorems there.
use map.Base.{
  ℕ, Bool, true, some, List, [], ◌∷◌, ◌≡◌, refl, subst, not, ◌&&◌, ◌||◌, ◌==◌, &&-eq-true, arith,
}
use map.Envelope.Canonical.{Text, codes}
use map.Envelope.Events.{Result, ok, raised, to_json}
use map.Envelope.Valid.{construct-IsValid}
use map.Envelope.Samples.{parsers, given, made, construct-given}
use map.Sse.{new_parser, extract_frames, strip, feed, feed_all, flatten}
use map.Sse.Utf8.{decode}
use map.Sse.Splitting.{NoCrCr}
use map.Sse.Feeding.{Clear, feed_all-flatten}
use map.Sse.Envelopes.{Unbroken, ReadBack, sse_frame-ReadBack}
use map.Sse.Broken.{broken_text, extract_frames-broken}

-- `data: é\r\n\n`, cut inside the character and inside the line's end.
abbrev chunks : List (List ℕ)
chunks =
    (100 ∷ 97 ∷ 116 ∷ 97 ∷ 58 ∷ 32 ∷ 195 ∷ []) ∷ (169 ∷ 13 ∷ []) ∷ [] ∷ (10 ∷ 10 ∷ 100 ∷ []) ∷ []

chunks-read :
    feed_all new_parser chunks
    ≡ some (
      (record { event = codes "message"; data_field = 233 ∷ [] }) ∷ [],
      record new_parser { buffer = 100 ∷ [] },
    )
unfolding feed_all codes
chunks-read = refl

chunks-Clear : Clear new_parser (flatten chunks)
unfolding flatten decode
chunks-Clear t s h =
    let e : 100 ∷ 97 ∷ 116 ∷ 97 ∷ 58 ∷ 32 ∷ 233 ∷ 13 ∷ 10 ∷ 10 ∷ 100 ∷ [] ≡ t = cc in
    subst NoCrCr e
      (refl, (refl, (refl, (refl, (refl, (refl, (refl, (refl, (refl, (refl, tt))))))))))

feed_all-flatten_example : feed_all new_parser chunks ≡ feed new_parser (flatten chunks)
feed_all-flatten_example = feed_all-flatten new_parser chunks chunks-Clear

-- `Unbroken` as a test.
is_unbroken : Text → Bool
is_unbroken [] = true
is_unbroken (c ∷ cs) = not ((c == 133) || ((c == 8232) || (c == 8233))) && is_unbroken cs

is_unbroken-Unbroken : (t : Text) → is_unbroken t ≡ true → Unbroken t
unfolding is_unbroken
is_unbroken-Unbroken [] h = tt
is_unbroken-Unbroken (c ∷ cs) h =
    let (a, b) = &&-eq-true (not ((c == 133) || ((c == 8232) || (c == 8233)))) (is_unbroken cs) h in
    (ground arith, is_unbroken-Unbroken cs b)

abbrev unbroken_result : Result Text → Bool
unbroken_result (ok t) = is_unbroken t
unbroken_result (raised r) = true

made-Unbroken : (json : Text) → to_json made ≡ ok json → Unbroken json
unfolding to_json is_unbroken
made-Unbroken json h = is_unbroken-Unbroken json (subst (λ r. unbroken_result r ≡ true) h refl)

sse_frame-ReadBack_example :
    (json : Text) × (to_json made ≡ ok json) × ReadBack made json (codes "event: end")
sse_frame-ReadBack_example =
    sse_frame-ReadBack parsers made (codes "event: end")
      (construct-IsValid parsers given made construct-given) made-Unbroken

-- `id: 7` and `event: error`, whose message holds U+2028.
extract_frames-broken_example :
    extract_frames
      (broken_text ((codes "id: 7", 10) ∷ []) (codes "error") (codes "{\"a") 8232 (codes "b\"}") [])
    ≡ (
      record { event = codes "error"; data_field = strip (32 ∷ codes "{\"a") }
          ∷ (extract_frames []).0,
      (extract_frames []).1,
    )
unfolding codes extract_frames
extract_frames-broken_example =
    extract_frames-broken ((codes "id: 7", 10) ∷ []) (codes "error") (codes "{\"a") (codes "b\"}")
      [] 8232 (((refl, (refl, (refl, (refl, (refl, tt))))), (refl, refl)), tt) ((refl, refl), tt)
      (refl, (refl, (refl, (refl, (refl, tt))))) (refl, refl) (refl, (refl, (refl, tt)))
      (refl, refl) (refl, (refl, (refl, tt))) (refl, refl)
