-- ===== src/Envelope/Written.antt =====
-- `to_json` (map-business-backend/app/runtime/event_envelope.py) of an envelope that the constructor gives.
use mathlib.Core.Bool.{false≢true}
use map.Base.{
  Bool, true, false, Bool-cases, inl, inr, ◌≤◌, Option, none, some, [], ◌∷◌, ◌≡◌, refl, ap, ◌∙◌,
  leb, arith,
}
use map.Envelope.{Value, dict, proxy, deep_thaw, freeze_entries}
use map.Envelope.Canonical.{
  Text, Check, utf8_size, canonical_json, sized, has_surrogate, validate_payload_size,
}
use map.Envelope.Fields.{first}
use map.Envelope.Events.{
  ok, raised_or, bind, text_or, EventEnvelope, with_content, to_dict, to_json,
}
use map.Envelope.Snapshot.{thaw_entries-freeze_entries}
use map.Envelope.Accepted.{guard-none, Content, validate_payload_size-thaw}

abbrev is_passed : Check → Bool
is_passed none = true
is_passed (some r) = false

-- The text of a size check that passes.
pub sized-none :
    (o : Option Text) → sized o ≡ none → (t : Text) × (o ≡ some t) × (utf8_size t ≤ 65536)
sized-none none h = cc
sized-none (some t) h = elim (Bool-cases (has_surrogate t)) [
  | inl e ↦ absurd (false≢true (ap is_passed (rw e at h)))
  | inr e ↦ let le = guard-none (leb (utf8_size t) 65536) _ (rw e at h) in (t, refl, ground arith)
]

pub validate_payload_size-text :
    (v : Value)
    → validate_payload_size v ≡ none
    → (t : Text) × (canonical_json v ≡ some t) × (utf8_size t ≤ 65536)
unfolding validate_payload_size
validate_payload_size-text v h = sized-none (canonical_json v) h

pub settled :
    (o : Option Text) (t : Text) (a b z : Check)
    → o ≡ some t
    → a ≡ none
    → b ≡ none
    → z ≡ none
    → bind (text_or o) (λ t. raised_or (first (a ∷ b ∷ z ∷ [])) (ok t)) ≡ ok t
unfolding first
settled o t a b z ho ha hb hz = rw (ho, ha, hb, hz) refl

pub to_json-settled :
    (e : EventEnvelope) (t : Text)
    → canonical_json (to_dict e) ≡ some t
    → validate_payload_size (deep_thaw (e.data_field)) ≡ none
    → validate_payload_size (deep_thaw (e.extra_fields)) ≡ none
    → validate_payload_size (to_dict e) ≡ none
    → to_json e ≡ ok t
unfolding to_json
to_json-settled e t ho ha hb hz =
    settled (canonical_json (to_dict e)) t (validate_payload_size (deep_thaw e.data_field))
      (validate_payload_size (deep_thaw e.extra_fields)) (validate_payload_size (to_dict e)) ho ha
      hb hz

-- What `to_json` writes of an envelope: a text of at most 64 KiB.
abbrev pub Written : EventEnvelope → Type 0
Written e =
    (t : Text) × (canonical_json (to_dict e) ≡ some t) × (to_json e ≡ ok t) × (utf8_size t ≤ 65536)

-- `to_json` of accepted content.
module _ (m : EventEnvelope) {content extra : Value} (c : Content content extra) where
  open c use {ds, xs}

  abbrev pub stored : EventEnvelope
  stored = with_content m (proxy (freeze_entries ds)) (proxy (freeze_entries xs))

  pub to_dict-stored : to_dict stored ≡ to_dict (with_content m (dict ds) (dict xs))
  unfolding to_dict deep_thaw
  to_dict-stored =
      rw (thaw_entries-freeze_entries ds c.data_json, thaw_entries-freeze_entries xs c.extra_json)
        refl

  pub data-size : validate_payload_size (deep_thaw (proxy (freeze_entries ds))) ≡ none
  unfolding deep_thaw
  data-size =
      ap (λ es. validate_payload_size (dict es)) (thaw_entries-freeze_entries ds c.data_json)
      ∙ (validate_payload_size-thaw ds ∙ c.data_size)

  pub extra-size : validate_payload_size (deep_thaw (proxy (freeze_entries xs))) ≡ none
  unfolding deep_thaw
  extra-size =
      ap (λ es. validate_payload_size (dict es)) (thaw_entries-freeze_entries xs c.extra_json)
      ∙ (validate_payload_size-thaw xs ∙ c.extra_size)

  pub stored-Written :
      validate_payload_size (to_dict (with_content m (dict ds) (dict xs))) ≡ none → Written stored
  stored-Written h =
      let whole = ap validate_payload_size to_dict-stored ∙ h in
      let (t, eq, le) = validate_payload_size-text (to_dict stored) whole in
      (t, eq, to_json-settled stored t eq data-size extra-size whole, le)
