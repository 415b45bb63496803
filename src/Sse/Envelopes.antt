-- ===== src/Sse/Envelopes.antt =====
-- `EventEnvelope.sse_frame` (map-business-backend/app/runtime/event_envelope.py) read by `_extract_frames` (app/services/sse.py).
use map.Base.{
  ℕ, false, ◌||◌, Option, none, some, List, [], ◌∷◌, ◌++◌, ◌==◌, ◌≡◌, refl, sym, ap, ◌∙◌, subst,
  arith, All,
}
use map.Effects.Guard.{is_space}
use map.Envelope.{Value, int, pos, deep_thaw}
use map.Envelope.Canonical.{Text, codes, show_int, show_nat, canonical_json, dumps, bracket}
use map.Envelope.Fields.{Parsers}
use map.Envelope.Events.{ok, bind, EventEnvelope, to_dict, to_json, sse_frame, show_seq, show_type}
use map.Envelope.Valid.{IsValid}
use map.Envelope.Printable.{Printable, Shown, Digits, show_nat-Digits, dumps-Shown}
use map.Sse.{extract_frames, read_line, read_lines, join, frame_of_fields}
use map.Sse.Lines.{Inside, Line, Ended, body, lines_of}
use map.Sse.Frames.{extract_frames-body}
use map.Sse.Fields.{
  Trimmed, read_line-id, read_line-event, read_line-data, between-Trimmed, frozen-Inside,
  frozen-Trimmed,
}
use mathlib.Core.List.{append_assoc}

-- Neither U+0085 nor U+2028 nor U+2029, which JSON leaves as they are and at which `splitlines` breaks.
abbrev pub Unbroken : Text → Type 0
Unbroken = All (λ c. ((c == 133) || ((c == 8232) || (c == 8233))) ≡ false)

Printable-Inside : (t : Text) → Printable t → Unbroken t → All Inside t
Printable-Inside [] h k = tt
Printable-Inside (c ∷ cs) h k =
    let le = h.0 in let ne = k.0 in (ground arith, Printable-Inside cs h.1 k.1)

bracket-some :
    (a b : ℕ) (o : Option Text) (t : Text)
    → bracket a b o ≡ some t
    → (u : Text) × (a ∷ u ++ b ∷ [] ≡ t)
bracket-some a b none t h = cc
bracket-some a b (some u) t h = (u, cc)

Shown-some : (o : Option Text) (t : Text) → Shown o → o ≡ some t → Printable t
Shown-some o t h e = subst Shown e h

canonical-Trimmed : (e : EventEnvelope) (t : Text) → canonical_json (to_dict e) ≡ some t → Trimmed t
unfolding canonical_json to_dict deep_thaw dumps is_space
canonical-Trimmed e t h =
    let (u, eq) = bracket-some 123 125 _ t h in
    subst Trimmed eq (between-Trimmed 123 u 125 refl refl)

canonical-Printable : (v : Value) (t : Text) → canonical_json v ≡ some t → Printable t
unfolding canonical_json
canonical-Printable v t h = Shown-some (dumps (deep_thaw v)) t (dumps-Shown (deep_thaw v)) h

-- The lines of a frame.
abbrev frame_lines : Text → Text → List (Text × ℕ)
frame_lines seq type = (codes "id: " ++ seq, 10) ∷ (codes "event: " ++ type, 10) ∷ []

frame_lines-read :
    (seq type json : Text)
    → Trimmed type
    → Trimmed json
    → frame_of_fields (
        read_lines (codes "message", []) (lines_of (frame_lines seq type) (codes "data: " ++ json)))
      ≡ record { event = type; data_field = json }
unfolding read_lines join
frame_lines-read seq type json ht hj = ap frame_of_fields (
    ap (λ z. read_line (read_line z (codes "event: " ++ type)) (codes "data: " ++ json))
      (read_line-id (codes "message", []) seq)
    ∙ (ap (λ z. read_line z (codes "data: " ++ json))
          (read_line-event (codes "message", []) type ht)
        ∙ read_line-data (type, []) json hj))

-- The text of a frame.
abbrev frame_text : Text → Text → Text → Text
frame_text seq type json =
    codes "id: "
    ++ (seq ++ (10 ∷ codes "event: " ++ (type ++ (10 ∷ codes "data: " ++ (json ++ 10 ∷ 10 ∷ [])))))

frame_lines-text :
    (seq type json rest : Text)
    → frame_text seq type json ++ rest
      ≡ body (frame_lines seq type) (codes "data: " ++ json) ++ 10 ∷ 10 ∷ rest
unfolding codes
frame_lines-text seq type json rest = simp (append_assoc)

Digits-Inside : (t : Text) → Digits t → All Inside t
Digits-Inside [] h = tt
Digits-Inside (c ∷ cs) h = let (a, b) = h.0 in (ground arith, Digits-Inside cs h.1)

frame_lines-Ended :
    (seq type : Text) → All Inside seq → All Inside type → Ended (frame_lines seq type)
unfolding codes
frame_lines-Ended seq type hs ht = (
  ((refl, (refl, (refl, (refl, hs)))), (refl, refl)),
  (((refl, (refl, (refl, (refl, (refl, (refl, (refl, ht))))))), (refl, refl)), tt),
)

data-Line : (json : Text) → All Inside json → Line (codes "data: " ++ json)
unfolding codes
data-Line json h = (refl, (refl, (refl, (refl, (refl, (refl, h))))))

show_seq-Inside : (v : Value) (n : ℕ) → v ≡ int (pos n) → All Inside (show_seq v)
unfolding show_int
show_seq-Inside v n e =
    subst (λ v. All Inside (show_seq v)) (sym e) (Digits-Inside (show_nat n) (show_nat-Digits n))

sse_frame-text :
    (e : EventEnvelope) (json : Text)
    → to_json e ≡ ok json
    → sse_frame e ≡ ok (frame_text (show_seq (e.seq)) (show_type (e.type)) json)
unfolding sse_frame
sse_frame-text e json h =
    ap (λ r. bind r (λ t. ok (frame_text (show_seq (e.seq)) (show_type (e.type)) t))) h

-- What the consumer reads of a frame that stands before more text.
abbrev pub ReadBack : EventEnvelope → Text → Text → Type 0
ReadBack e json rest =
    (text : Text) × (sse_frame e ≡ ok text)
    × (extract_frames (text ++ rest) ≡ (
      record { event = show_type (e.type); data_field = json } ∷ (extract_frames rest).0,
      (extract_frames rest).1,
    ))

-- For every valid envelope, `to_json` and `sse_frame` return, and the consumer's `_extract_frames`
-- reads the frame, whatever follows it, as one frame with the envelope's type as its event and its
-- whole canonical JSON as its data, then what it reads of the rest, if the JSON has none of
-- U+0085, U+2028 and U+2029.
pub sse_frame-ReadBack :
    (p : Parsers) (e : EventEnvelope) (rest : Text)
    → IsValid p e
    → ((json : Text) → to_json e ≡ ok json → Unbroken json)
    → (json : Text) × (to_json e ≡ ok json) × ReadBack e json rest
sse_frame-ReadBack p e rest v unbroken =
    let (json, canonical, written, le) = v.written in
    let (n, eq_n, pos_n) = v.positive in
    let (s, eq_s, frozen) = v.defined in
    let seq = show_seq e.seq in
    let type = show_type e.type in
    let type_inside : All Inside (show_type (e.type)) =
      subst (λ v. All Inside (show_type v)) (sym eq_s) (frozen-Inside s frozen) in
    let type_trimmed : Trimmed (show_type (e.type)) =
      subst (λ v. Trimmed (show_type v)) (sym eq_s) (frozen-Trimmed s frozen) in
    let json_inside =
      Printable-Inside json (canonical-Printable (to_dict e) json canonical)
        (unbroken json written) in
    let read =
      ap extract_frames (frame_lines-text seq type json rest)
      ∙ (extract_frames-body (frame_lines seq type) (codes "data: " ++ json) rest
            (frame_lines-Ended seq type (show_seq-Inside e.seq n eq_n) type_inside)
            (data-Line json json_inside)
          ∙ ap (λ z. (z ∷ (extract_frames rest).0, (extract_frames rest).1))
              (frame_lines-read seq type json type_trimmed (canonical-Trimmed e json canonical))) in
    (json, written, (frame_text seq type json, sse_frame-text e json written, read))
