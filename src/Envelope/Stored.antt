-- ===== src/Envelope/Stored.antt =====
-- The rows of events: `envelope_to_row` and `row_to_envelope` of map-business-backend/app/services/run_event_stream.py.
use map.Base.{String, Bool, false, ◌&&◌, Option, none, some, [], ◌∷◌, ◌==◌, str_eq, if◌then◌else◌}
use map.Envelope.{ℤ, pos, negsuc, Value, int, str}
use map.Envelope.Canonical.{Text}
use map.Envelope.Fields.{Parsers, invalid}
use map.Envelope.Events.{Result, ok, raised, bind, EventEnvelope, to_json, from_json}

-- A column of the table: a text or an integer.
pub data Column : Type 0 where
  text : String → Column
  number : ℤ → Column

-- A row, where `none` is a column that is missing or, for the payload, no string.
pub record EventRow : Type 0 where
  pub run_id : Option Column
  pub seq : Option Column
  pub event_id : Option Column
  pub event_type : Option Column
  pub occurred_at : Option Column
  pub workspace_id : Option Column
  pub schema_version : Option Column
  pub schema_minor : Option Column
  pub payload_json : Option Text

abbrev pub column_of : Value → Option Column
column_of (str s) = some (text s)
column_of (int n) = some (number n)
column_of _ = none

abbrev pub int_eq : ℤ → ℤ → Bool
int_eq (pos m) (pos n) = m == n
int_eq (negsuc m) (negsuc n) = m == n
int_eq _ _ = false

-- `row.get(column) == expected_value`
abbrev pub agrees : Option Column → Value → Bool
agrees (some (text s)) (str t) = str_eq s t
agrees (some (number m)) (int n) = int_eq m n
agrees _ _ = false

-- `envelope_to_row`
unfoldable pub envelope_to_row : EventEnvelope → Result EventRow
unfolding to_json
envelope_to_row e = bind (to_json e) (λ payload. ok (record {
  run_id = column_of (e.run_id);
  seq = column_of (e.seq);
  event_id = column_of (e.event_id);
  event_type = column_of (e.type);
  occurred_at = column_of (e.occurred_at);
  workspace_id = column_of (e.workspace_id);
  schema_version = column_of (e.schema_version);
  schema_minor = column_of (e.schema_minor);
  payload_json = some payload;
}))

abbrev pub all_agree : EventRow → EventEnvelope → Bool
all_agree r e =
    agrees r.run_id e.run_id
    && (agrees r.seq e.seq
        && (agrees r.event_id e.event_id
            && (agrees r.event_type e.type
                && (agrees r.occurred_at e.occurred_at
                    && (agrees r.workspace_id e.workspace_id
                        && (agrees r.schema_version e.schema_version
                            && agrees r.schema_minor e.schema_minor))))))

abbrev pub checked_row : EventRow → EventEnvelope → Result EventEnvelope
checked_row r e = if all_agree r e then ok e else raised invalid

-- `row_to_envelope` of a row that is an object.
unfoldable pub row_to_envelope : Parsers → (Text → Option Value) → EventRow → Result EventEnvelope
unfolding from_json
row_to_envelope p loads r = elim (r.payload_json) [
  | none ↦ raised invalid
  | some [] ↦ raised invalid
  | some (c ∷ cs) ↦ bind (from_json p loads (c ∷ cs)) (checked_row r)
]
