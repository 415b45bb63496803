-- ===== src/Envelope/Examples.antt =====
-- Concrete runs of the envelope (map-business-backend/app/runtime/event_envelope.py) and the theorems there.
use map.Base.{◌≤◌, some, ◌≡◌, refl}
use map.Envelope.Canonical.{Text, utf8_size}
use map.Envelope.Fields.{has_key}
use map.Envelope.Events.{ok, to_dict, from_dict, to_json, from_json}
use map.Envelope.RoundTrip.{from_dict-to_dict}
use map.Envelope.Valid.{IsValid, from_dict-IsValid}
use map.Envelope.Json.{from_json-to_json}
use map.Envelope.Stored.{EventRow, envelope_to_row, row_to_envelope}
use map.Envelope.StoredBack.{row_to_envelope-envelope_to_row}
use map.Envelope.Samples.{parsers, given, made, construct-given}

from_dict-made : from_dict parsers (to_dict made) ≡ ok made
unfolding has_key
from_dict-made = from_dict-to_dict parsers given made (refl, tt) construct-given

from_dict-IsValid_example : IsValid parsers made
from_dict-IsValid_example = from_dict-IsValid parsers (to_dict made) made from_dict-made

from_json-to_json_example :
    (t : Text) × (to_json made ≡ ok t)
    × (utf8_size t ≤ 65536)
    × (from_json parsers (λ t. some (to_dict made)) t ≡ ok made)
unfolding has_key
from_json-to_json_example =
    from_json-to_json parsers (λ t. some (to_dict made)) given made (λ t h. refl) (refl, tt)
      construct-given

row_to_envelope-envelope_to_row_example :
    (r : EventRow) × (envelope_to_row made ≡ ok r)
    × (row_to_envelope parsers (λ t. some (to_dict made)) r ≡ ok made)
unfolding has_key
row_to_envelope-envelope_to_row_example =
    row_to_envelope-envelope_to_row parsers (λ t. some (to_dict made)) given made (λ t h. refl)
      (refl, tt) construct-given
