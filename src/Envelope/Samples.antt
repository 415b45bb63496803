-- ===== src/Envelope/Samples.antt =====
-- Concrete envelopes for the tests of the envelope (map-business-backend/app/runtime/event_envelope.py) and of its frames.
use map.Base.{true, some, ◌==◌, ◌≡◌, refl}
use map.Envelope.{
  pos, negsuc, str_key, Value, none_value, bool, int, str, list, dict, tuple, proxy, no_items, item,
  no_entries, entry, validate_json_types,
}
use map.Envelope.Canonical.{attribute_error}
use map.StateMachine.{contains}
use map.Envelope.Fields.{
  Parsers, validate_schema_version, require_int, validate_event_type, require_text, require_uuid,
  require_timestamp, shadows, has_key,
}
use map.Envelope.Events.{ok, raised, EventEnvelope, construct, from_dict, canonical_fields}
use Prim.Native.String.{count}

-- A UUID has 36 characters here, and every timestamp is aware.
abbrev pub parsers : Parsers
parsers = record {
  is_uuid = λ s. count s == 36;
  fromisoformat = λ s. some (record { aware = true; instant = count s });
}

abbrev pub sample_id : Value
sample_id = str "550e8400-e29b-41d4-a716-446655440000"

abbrev pub given : EventEnvelope
given = record {
  schema_version = int (pos 1);
  schema_minor = int (pos 2);
  event_id = sample_id;
  run_id = sample_id;
  seq = int (pos 12);
  type = str "run.started";
  occurred_at = str "2026-01-02T03:04:05Z";
  workspace_id = sample_id;
  data_field =
      dict
        (entry (str_key "k") (list (item (int (negsuc 4)) (item none_value no_items))) no_entries);
  extra_fields = dict (entry (str_key "note") (bool true) no_entries);
}

-- What the constructor makes of it.
abbrev pub made : EventEnvelope
made = record given {
  data_field =
      proxy
        (entry (str_key "k") (tuple (item (int (negsuc 4)) (item none_value no_items))) no_entries);
  extra_fields = proxy (entry (str_key "note") (bool true) no_entries);
}

pub construct-given : construct parsers given ≡ ok made
unfolding construct validate_schema_version require_int validate_event_type contains require_text
    require_uuid require_timestamp shadows validate_json_types
construct-given = refl

-- A payload whose type is a number.
abbrev pub untyped : Value
untyped = dict (canonical_fields (record given { type = int (pos 5) }) (dict no_entries))

pub from_dict-untyped : from_dict parsers untyped ≡ raised attribute_error
unfolding from_dict validate_schema_version has_key shadows contains require_int validate_event_type
from_dict-untyped = refl
