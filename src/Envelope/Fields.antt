-- ===== src/Envelope/Fields.antt =====
-- The dicts and the field checks of map-business-backend/app/runtime/event_envelope.py.
use map.Base.{
  ℕ, String, Bool, true, false, not, ◌&&◌, ◌||◌, Option, none, some, List, [], ◌∷◌, leb, ◌==◌,
  str_eq, if◌then◌else◌,
}
use map.StateMachine.{contains}
use map.Effects.Guard.{is_blank}
use map.Envelope.{
  pos, Key, str_key, Value, int, str, surrogate_str, dict, proxy, Entries, no_entries, entry,
}
use map.Envelope.Canonical.{Text, codes, Raised, event_envelope_error, attribute_error, Check}
use Prim.Native.Char.{code}
use Prim.Native.String

-- Equality of keys, on strings.
abbrev pub key_eq : Key → Key → Bool
key_eq (str_key s) (str_key t) = str_eq s t
key_eq _ _ = false

-- `key in d`
unfoldable pub has_key : String → Entries → Bool
has_key k no_entries = false
has_key k (entry j v es) = key_eq j (str_key k) || has_key k es

-- `d.get(key)`
unfoldable pub lookup : String → Entries → Option Value
lookup k no_entries = none
lookup k (entry j v es) = if key_eq j (str_key k) then some v else lookup k es

-- `d[key] = value`
unfoldable pub set_key : Key → Value → Entries → Entries
set_key k v no_entries = entry k v no_entries
set_key k v (entry j w es) = if key_eq j k then entry j v es else entry j w (set_key k v es)

-- `d.update(other)`
unfoldable pub update : Entries → Entries → Entries
unfolding set_key
update es no_entries = es
update es (entry k v rest) = update (set_key k v es) rest

abbrev pub entries_of : Value → Entries
entries_of (dict es) = es
entries_of (proxy es) = es
entries_of _ = no_entries

-- RESERVED_ENVELOPE_FIELDS
abbrev pub reserved_envelope_fields : List String
reserved_envelope_fields =
    "schema_version" ∷ "schema_minor" ∷ "event_id" ∷ "run_id" ∷ "seq" ∷ "type" ∷ "occurred_at"
    ∷ "workspace_id" ∷ "data" ∷ []

abbrev pub is_reserved : Key → Bool
is_reserved (str_key s) = contains s reserved_envelope_fields
is_reserved _ = false

-- The items whose key is not among the known ones.
unfoldable pub unknown_fields : Entries → Entries
unknown_fields no_entries = no_entries
unknown_fields (entry k v es) =
    if is_reserved k then unknown_fields es else entry k v (unknown_fields es)

-- Whether one of the reserved names is a key.
unfoldable pub shadows : List String → Entries → Bool
unfolding has_key
shadows [] es = false
shadows (name ∷ names) es = has_key name es || shadows names es

abbrev pub invalid : Raised
invalid = event_envelope_error "EVENT_ENVELOPE_INVALID"

-- A check that raises EVENT_ENVELOPE_INVALID unless its condition holds.
abbrev pub require : Bool → Check
require b = if b then none else some invalid

-- The first error of several checks.
unfoldable pub first : List Check → Check
first [] = none
first (none ∷ rest) = first rest
first (some r ∷ rest) = some r

abbrev pub event_type_prefixes : List String
event_type_prefixes =
    "run." ∷ "step." ∷ "attempt." ∷ "model." ∷ "tool." ∷ "approval." ∷ "artifact." ∷ "checkpoint."
    ∷ "effect." ∷ []

-- _FROZEN_EVENT_TYPES
abbrev pub frozen_event_types : List String
frozen_event_types =
    "run.started" ∷ "run.completed" ∷ "run.failed" ∷ "run.cancelling" ∷ "run.cancelled"
    ∷ "run.timed_out" ∷ "step.started" ∷ "step.completed" ∷ "step.failed" ∷ "step.waiting_approval"
    ∷ "step.skipped" ∷ "step.cancelled" ∷ "attempt.started" ∷ "attempt.completed" ∷ "attempt.failed"
    ∷ "model.invocation_created" ∷ "model.invocation_sent" ∷ "model.invocation_succeeded"
    ∷ "model.invocation_failed" ∷ "model.invocation_unknown" ∷ "model.invocation_reconciled"
    ∷ "tool.invocation_created" ∷ "tool.invocation_completed" ∷ "tool.invocation_failed"
    ∷ "approval.created" ∷ "approval.approved" ∷ "approval.rejected" ∷ "approval.expired"
    ∷ "artifact.created" ∷ "checkpoint.written" ∷ "effect.planned" ∷ "effect.executing"
    ∷ "effect.succeeded" ∷ "effect.failed" ∷ "effect.uncertain" ∷ "effect.reconciling"
    ∷ "effect.reconciled" ∷ "effect.cancelled" ∷ []

unfoldable pub starts_with : Text → Text → Bool
starts_with [] cs = true
starts_with (p ∷ ps) [] = false
starts_with (p ∷ ps) (c ∷ cs) = (p == c) && starts_with ps cs

unfoldable pub any_prefix : List String → String → Bool
unfolding starts_with codes
any_prefix [] s = false
any_prefix (p ∷ ps) s = starts_with (codes p) (codes s) || any_prefix ps s

abbrev pub unknown_type : Raised
unknown_type = event_envelope_error "UNKNOWN_EVENT_TYPE"

-- `validate_event_type`; a value with no `startswith` gives Python's own error.
unfoldable pub validate_event_type : Value → Check
unfolding any_prefix
validate_event_type (str t) =
    if not (any_prefix event_type_prefixes t)
    then some unknown_type
    else if contains t frozen_event_types
    then none
    else some unknown_type
validate_event_type (surrogate_str t) = some unknown_type
validate_event_type _ = some attribute_error

abbrev pub unknown_version : Raised
unknown_version = event_envelope_error "UNKNOWN_EVENT_VERSION"

-- `validate_schema_version`; a bool is no `int` here.
unfoldable pub validate_schema_version : Value → Check
validate_schema_version (int (pos n)) = if n == 1 then none else some unknown_version
validate_schema_version _ = some unknown_version

-- A non-bool `int` that is at least the bound.
unfoldable pub require_int : ℕ → Value → Check
require_int least (int (pos n)) = require (leb least n)
require_int least _ = some invalid

-- A string that is not empty when stripped; a surrogate is no blank.
unfoldable pub require_text : Value → Check
unfolding is_blank
require_text (str s) = require (not (is_blank s))
require_text (surrogate_str t) = none
require_text _ = some invalid

-- `value.replace("Z", "+00:00")`
unfoldable pub replace_z : String → String
replace_z String.[] = String.[]
replace_z (String.◌∷◌ c s) =
    let rest = replace_z s in if code c == 90 then String.◌++◌ "+00:00" rest else String.◌∷◌ c rest

-- A parsed timestamp: whether it carries a timezone, and its instant.
pub record Stamp : Type 0 where
  pub aware : Bool
  pub instant : ℕ

-- What the code calls of Python's `uuid` and `datetime`: whether `uuid.UUID` accepts a string, and
-- `datetime.fromisoformat`, where `none` is the ValueError.
pub record Parsers : Type 0 where
  pub is_uuid : String → Bool
  pub fromisoformat : String → Option Stamp

module _ (p : Parsers) where
  open p use {is_uuid, fromisoformat}

  -- `_require_uuid` of a string.
  unfoldable pub require_uuid : Value → Check
  require_uuid (str s) = require (is_uuid s)
  require_uuid _ = some invalid

  abbrev pub require_aware : Option Stamp → Check
  require_aware none = some invalid
  require_aware (some t) = require (t.aware)

  unfoldable pub require_timestamp : Value → Check
  unfolding replace_z
  require_timestamp (str s) = require_aware (fromisoformat (replace_z s))
  require_timestamp _ = some invalid
