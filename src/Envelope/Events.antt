-- ===== src/Envelope/Events.antt =====
-- `EventEnvelope` of map-business-backend/app/runtime/event_envelope.py: its constructor, its forms and the entries that read them.
use map.Base.{
  String, Bool, true, false, not, Option, none, some, List, [], ◌∷◌, ◌++◌, if◌then◌else◌,
}
use map.Envelope.{
  Value, none_value, int, pos, str, dict, Entries, no_entries, entry, str_key, validate_json_types,
  deep_freeze, deep_thaw,
}
use map.Envelope.Canonical.{
  Text, codes, Raised, event_envelope_error, Check, canonical_json, validate_payload_size, show_int,
}
use map.Envelope.Fields.{
  has_key, lookup, update, entries_of, reserved_envelope_fields, unknown_fields, shadows, invalid,
  require, first, validate_event_type, validate_schema_version, require_int, require_text, Parsers,
  require_uuid, require_timestamp,
}

pub data Result {ℓ} (A : Type ℓ) : Type ℓ where
  ok : A → Result A
  raised : Raised → Result A

abbrev pub raised_or {ℓ} : {A : Type ℓ} → Check → Result A → Result A
raised_or none r = r
raised_or (some e) r = raised e

abbrev pub bind {ℓ κ} : {A : Type ℓ} {B : Type κ} → Result A → (A → Result B) → Result B
bind (ok a) f = f a
bind (raised e) f = raised e

-- The fields hold what they were given, since Python checks no annotation.
pub record EventEnvelope : Type 0 where
  pub schema_version : Value
  pub schema_minor : Value
  pub event_id : Value
  pub run_id : Value
  pub seq : Value
  pub type : Value
  pub occurred_at : Value
  pub workspace_id : Value
  pub data_field : Value
  pub extra_fields : Value

-- An envelope with other data and extra fields.
abbrev pub with_content : EventEnvelope → Value → Value → EventEnvelope
with_content e content extra = record {
  schema_version = e.schema_version;
  schema_minor = e.schema_minor;
  event_id = e.event_id;
  run_id = e.run_id;
  seq = e.seq;
  type = e.type;
  occurred_at = e.occurred_at;
  workspace_id = e.workspace_id;
  data_field = content;
  extra_fields = extra;
}

abbrev pub is_dict : Value → Bool
is_dict (dict es) = true
is_dict _ = false

-- The canonical fields of `to_dict`, around the data.
abbrev pub canonical_fields : EventEnvelope → Value → Entries
canonical_fields e content = entry (str_key "schema_version") (e.schema_version) (
    entry (str_key "schema_minor") (e.schema_minor) (
      entry (str_key "event_id") (e.event_id) (
        entry (str_key "run_id") (e.run_id) (
          entry (str_key "seq") (e.seq) (
            entry (str_key "type") (e.type) (
              entry (str_key "occurred_at") (e.occurred_at) (
                entry (str_key "workspace_id") (e.workspace_id)
                  (entry (str_key "data") content no_entries))))))))

-- `to_dict`
unfoldable pub to_dict : EventEnvelope → Value
unfolding deep_thaw update
to_dict e = dict (
    update (canonical_fields e (deep_thaw (e.data_field)))
      (entries_of (deep_thaw (e.extra_fields))))

abbrev pub serializable : Value → Check
serializable v =
    if validate_json_types v then none else some (event_envelope_error "PAYLOAD_NOT_SERIALIZABLE")

-- The checks of `__post_init__` on `data` and `extra_fields`.
abbrev pub content_checks : Value → Value → List Check
content_checks content extra =
    require (is_dict content)
    ∷ require (is_dict extra)
    ∷ require (not (shadows reserved_envelope_fields (entries_of extra)))
    ∷ serializable content
    ∷ serializable extra
    ∷ validate_payload_size content
    ∷ validate_payload_size extra
    ∷ []

unfoldable pub check_content : Value → Value → Check
unfolding first
check_content content extra = first (content_checks content extra)

abbrev pub field_or : Value → Option Value → Value
field_or d none = d
field_or d (some v) = v

abbrev pub field_of : Entries → String → Value
field_of es k = field_or none_value (lookup k es)

-- The envelope that `from_dict` builds of a dict.
abbrev pub envelope_of : Entries → EventEnvelope
envelope_of es = record {
  schema_version = field_of es "schema_version";
  schema_minor = field_of es "schema_minor";
  event_id = field_of es "event_id";
  run_id = field_of es "run_id";
  seq = field_of es "seq";
  type = field_of es "type";
  occurred_at = field_of es "occurred_at";
  workspace_id = field_of es "workspace_id";
  data_field = field_or (dict no_entries) (lookup "data" es);
  extra_fields = dict (unknown_fields es);
}

abbrev pub is_int : Value → Bool
is_int (int n) = true
is_int _ = false

-- What `from_dict` checks before it builds.
abbrev pub payload_checks : Entries → List Check
payload_checks es =
    require (is_int (field_of es "schema_version"))
    ∷ validate_schema_version (field_of es "schema_version")
    ∷ require (has_key "schema_minor" es)
    ∷ require (has_key "event_id" es)
    ∷ require (has_key "run_id" es)
    ∷ require (has_key "seq" es)
    ∷ require (has_key "type" es)
    ∷ require (has_key "occurred_at" es)
    ∷ require (has_key "workspace_id" es)
    ∷ require (not (shadows reserved_envelope_fields (unknown_fields es)))
    ∷ require (is_dict (field_or (dict no_entries) (lookup "data" es)))
    ∷ []

unfoldable pub check_payload : Entries → Check
unfolding first
check_payload es = first (payload_checks es)

module _ (p : Parsers) where
  -- The checks of `__post_init__` on the other fields.
  abbrev pub metadata_checks : EventEnvelope → List Check
  metadata_checks e =
      validate_schema_version (e.schema_version)
      ∷ require_int 0 (e.schema_minor)
      ∷ validate_event_type (e.type)
      ∷ require_int 1 (e.seq)
      ∷ require_text (e.event_id)
      ∷ require_text (e.run_id)
      ∷ require_text (e.occurred_at)
      ∷ require_text (e.workspace_id)
      ∷ require_uuid p (e.event_id)
      ∷ require_uuid p (e.run_id)
      ∷ require_uuid p (e.workspace_id)
      ∷ require_timestamp p (e.occurred_at)
      ∷ []

  unfoldable pub check_metadata : EventEnvelope → Check
  unfolding first
  check_metadata e = first (metadata_checks e)

  unfoldable pub check : EventEnvelope → Check
  unfolding first check_metadata check_content validate_payload_size to_dict
  check e = first (
      check_metadata e
      ∷ check_content (e.data_field) (e.extra_fields)
      ∷ validate_payload_size (to_dict e)
      ∷ [])

  -- `__post_init__`: the envelope that the constructor gives holds snapshots.
  unfoldable pub construct : EventEnvelope → Result EventEnvelope
  unfolding check deep_freeze
  construct e =
      raised_or (check e)
        (ok (with_content e (deep_freeze (e.data_field)) (deep_freeze (e.extra_fields))))

  -- `build`; the event's id and the time are drawn by the caller of the model.
  unfoldable pub build :
      String
      → String
      → Value
      → Value
      → Value
      → Value
      → Option Value
      → Value
      → Option String
      → Result EventEnvelope
  unfolding construct
  build new_id now run_id seq event_type workspace_id content minor occurred_at =
      construct (record {
        schema_version = int (pos 1);
        schema_minor = minor;
        event_id = str new_id;
        run_id = run_id;
        seq = seq;
        type = event_type;
        occurred_at = elim occurred_at [
          | none ↦ str now
          | some String.[] ↦ str now
          | some s ↦ str s
        ];
        workspace_id = workspace_id;
        data_field = elim content [ none ↦ dict no_entries | some v ↦ v ];
        extra_fields = dict no_entries;
      })

  -- `from_dict`
  unfoldable pub from_dict : Value → Result EventEnvelope
  unfolding check_payload construct validate_payload_size lookup unknown_fields
  from_dict (dict es) = raised_or (check_payload es) (
      bind (construct (envelope_of es))
        (λ e. raised_or (validate_payload_size (dict (unknown_fields es))) (ok e)))
  from_dict _ = raised invalid

  -- `from_json`; the parser of JSON is an argument, and `none` is its JSONDecodeError.
  unfoldable pub from_json : (Text → Option Value) → Text → Result EventEnvelope
  unfolding from_dict
  from_json loads raw = elim (loads raw) [ none ↦ raised invalid | some v ↦ from_dict v ]

abbrev pub text_or : Option Text → Result Text
text_or (some t) = ok t
text_or none = raised (event_envelope_error "PAYLOAD_NOT_SERIALIZABLE")

-- `to_json`; the payload that it writes is already thawed.
unfoldable pub to_json : EventEnvelope → Result Text
unfolding to_dict first canonical_json validate_payload_size deep_thaw
to_json e = bind (text_or (canonical_json (to_dict e))) (λ t.
    raised_or
      (first (
        validate_payload_size (deep_thaw (e.data_field))
        ∷ validate_payload_size (deep_thaw (e.extra_fields))
        ∷ validate_payload_size (to_dict e)
        ∷ []))
      (ok t))

abbrev pub show_seq : Value → Text
show_seq (int n) = show_int n
show_seq _ = []

abbrev pub show_type : Value → Text
show_type (str s) = codes s
show_type _ = []

-- `sse_frame`
unfoldable pub sse_frame : EventEnvelope → Result Text
unfolding to_json show_int codes
sse_frame e = bind (to_json e) (λ t. ok (
    codes "id: "
    ++ (show_seq (e.seq)
        ++ (10 ∷ codes "event: "
            ++ (show_type (e.type) ++ (10 ∷ codes "data: " ++ (t ++ 10 ∷ 10 ∷ [])))))))
