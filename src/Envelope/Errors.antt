-- ===== src/Envelope/Errors.antt =====
-- The errors of `EventEnvelope` (map-business-backend/app/runtime/event_envelope.py) and their HTTP status (error_mapping.py).
use map.Base.{Bool, true, false, none, some, ◌≡◌, ◌⊎◌}
use map.Envelope.{Value, none_value, str, surrogate_str, dict}
use map.Envelope.Canonical.{
  Raised, event_envelope_error, attribute_error, unicode_encode_error, has_surrogate, Text, Check,
  canonical_json,
}
use map.Envelope.Events.{Result, ok, raised, EventEnvelope, to_dict, envelope_of}
use map.Envelope.Mapping.{http_status_for}

abbrev pub is_str : Value → Bool
is_str (str s) = true
is_str (surrogate_str t) = true
is_str _ = false

-- The `type` of an envelope, and the three values whose size is checked: the data, the extra fields and the whole.
pub record Basis : Type 0 where
  pub type : Value
  pub content : Value
  pub extra : Value
  pub whole : Value

-- The JSON of the value holds a lone surrogate.
abbrev pub Unencodable : Value → Type 0
Unencodable v = (t : Text) × (canonical_json v ≡ some t) × (has_surrogate t ≡ true)

-- A typed error of the envelope is answered with 413 if the payload is too large, and with 400 if
-- not; Python's AttributeError comes of a `type` that is no string, and its UnicodeEncodeError of a
-- lone surrogate in the data, the extra fields or the whole.
abbrev pub Answered : Basis → Raised → Type 0
Answered z (event_envelope_error code) =
    ((http_status_for code ≡ 413) × (code ≡ "ARTIFACT_PAYLOAD_TOO_LARGE"))
    ⊎ (http_status_for code ≡ 400)
Answered z attribute_error = is_str z.type ≡ false
Answered z unicode_encode_error =
    Unencodable z.content ⊎ (Unencodable z.extra ⊎ Unencodable z.whole)

-- One of the three values.
abbrev Part : Basis → Value → Type 0
Part z v = (v ≡ z.content) ⊎ ((v ≡ z.extra) ⊎ (v ≡ z.whole))

module _ (z : Basis) where
  abbrev Fine : Check → Type 0
  Fine none = Unit
  Fine (some r) = Answered z r

-- A type that is no string has no `startswith`.
abbrev TypeFine : Value → Check → Type 0
TypeFine v c = (z : Basis) → z.type ≡ v → Fine z c

-- What the constructor checks of an envelope.
abbrev basis_of : EventEnvelope → Basis
basis_of e = record {
  type = e.type;
  content = e.data_field;
  extra = e.extra_fields;
  whole = to_dict e;
}

abbrev Settled {ℓ} : {A : Type ℓ} → Basis → Result A → Type 0
Settled z (ok a) = Unit
Settled z (raised r) = Answered z r

-- The envelope that `from_dict` constructs of a payload; of None where the payload is no dict.
abbrev pub basis_of_payload : Value → Basis
basis_of_payload (dict es) = basis_of (envelope_of es)
basis_of_payload v = record {
  type = none_value;
  content = none_value;
  extra = none_value;
  whole = none_value;
}
