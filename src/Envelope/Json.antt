-- ===== src/Envelope/Json.antt =====
-- `to_json` and `from_json` (map-business-backend/app/runtime/event_envelope.py), back and forth.
use map.Envelope.Valid.{construct-IsValid}
use map.Base.{refl, ◌≤◌, Option, some, ◌≡◌, ◌∙◌}
use map.Envelope.{Value}
use map.Envelope.Canonical.{Text, utf8_size, canonical_json}
use map.Envelope.Fields.{Parsers, entries_of}
use map.Envelope.Events.{ok, EventEnvelope, construct, to_dict, to_json, from_json, from_dict}
use map.Envelope.Merging.{Distinct}
use map.Envelope.RoundTrip.{from_dict-to_dict}

from_json-from_dict :
    (p : Parsers) (loads : Text → Option Value) (t : Text) (v : Value)
    → loads t ≡ some v
    → from_json p loads t ≡ from_dict p v
unfolding from_json
from_json-from_dict p loads t v h = rw (h, from_json) refl

-- `to_json` of every envelope that the constructor gives, from fields whose extra keys are
-- distinct, returns a text of at most 64 KiB, and `from_json` of it gives the same envelope, if
-- the parser reads the text that `json.dumps` writes of a payload as that payload.
pub from_json-to_json :
    (p : Parsers) (loads : Text → Option Value) (given e : EventEnvelope)
    → ((t : Text) → canonical_json (to_dict e) ≡ some t → loads t ≡ some (to_dict e))
    → Distinct (entries_of (given.extra_fields))
    → construct p given ≡ ok e
    → (t : Text) × (to_json e ≡ ok t) × (utf8_size t ≤ 65536) × (from_json p loads t ≡ ok e)
from_json-to_json p loads given e reads d h =
    let (t, eq, ok_t, le) = (construct-IsValid p given e h).written in
    (
      t,
      ok_t,
      le,
      from_json-from_dict p loads t (to_dict e) (reads t eq) ∙ from_dict-to_dict p given e d h,
    )
