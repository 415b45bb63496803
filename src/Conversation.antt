-- ===== src/Conversation.antt =====
-- One turn of `stream_conversation_message` (map-business-backend/app/services/conversation_service.py): its frames, its chunks and how it ends.
pub mod Turn
mod Streams
pub mod Completed
mod Sources
pub mod Messages
mod Examples
use map.Base.{
  ℕ, zero, suc, ◌-◌, String, Bool, true, false, not, ◌&&◌, ◌||◌, Option, none, some, List, [], ◌∷◌,
  ◌++◌, leb, ◌==◌, str_eq, if◌then◌else◌,
}
use Prim.Native.Nat.{◌%◌}
use map.Envelope.{
  Mark, digit, point, exponent, plus, minus, Decimal, end, mark, Value, none_value, bool, int, pos,
  negsuc, finite, non_finite, str, list, tuple, dict, proxy, object, Items, no_items, Entries,
  no_entries,
}
use map.Envelope.Canonical.{Text, codes, Raised, event_envelope_error, attribute_error}
use map.Envelope.Fields.{lookup, starts_with, Parsers}
use map.Envelope.Events.{Result, ok, raised, EventEnvelope, from_dict}
use map.Sse.{SseFrame, SseStreamParser, new_parser, strip, feed}

-- `StreamOutcome`; texts of errors are not kept.
pub record StreamOutcome : Type 0 where
  pub status : String
  pub content : Text
  pub task_id : Option Text
  pub decision_json : Option Entries
  pub evidence : List Entries
  pub error_code : Option String
  pub fallback_used : Bool
  pub done_received : Bool

abbrev pub new_outcome : StreamOutcome
new_outcome = record {
  status = "pending";
  content = [];
  task_id = none;
  decision_json = none;
  evidence = [];
  error_code = none;
  fallback_used = false;
  done_received = false;
}

-- What ends a turn early: a `SseParseError` with its code, or any other exception.
pub data Thrown : Type 0 where
  sse_parse_error : String → Thrown
  exception : Thrown

-- What the turn yields to the router.
pub data Event : Type 0 where
  run_event : Text → Entries → Event
  content_delta : Text → Event
  error_event : String → Event
  done_event : String → Text → Event

-- What has been gathered of the frames.
pub record Progress : Type 0 where
  pub outcome : StreamOutcome
  pub accumulated : Text

abbrev pub new_progress : Progress
new_progress = record { outcome = new_outcome; accumulated = [] }

-- A step over a frame: the progress and what was yielded, or the exception, the progress
-- at it and what was yielded before it.
pub data Step : Type 0 where
  goes : Progress → List Event → Step
  throws : Thrown → Progress → List Event → Step

unfoldable pub text_eq : Text → Text → Bool
text_eq [] [] = true
text_eq (c ∷ cs) (d ∷ ds) = (c == d) && text_eq cs ds
text_eq _ _ = false

abbrev pub is_empty : Text → Bool
is_empty [] = true
is_empty _ = false

-- Whether a float is zero, from its decimal form.
unfoldable pub is_zero : Decimal → Bool
is_zero end = true
is_zero (mark (digit d) r) = (d % 10 == 0) && is_zero r
is_zero (mark exponent r) = true
is_zero (mark m r) = is_zero r

-- The truth of a Python value.
unfoldable pub is_falsy : Value → Bool
unfolding is_zero codes
is_falsy none_value = true
is_falsy (bool b) = not b
is_falsy (int (pos zero)) = true
is_falsy (finite r) = is_zero r
is_falsy (str s) = is_empty (codes s)
is_falsy (list no_items) = true
is_falsy (tuple no_items) = true
is_falsy (dict no_entries) = true
is_falsy (proxy no_entries) = true
is_falsy _ = false

-- RUN_EVENT_PREFIXES
abbrev pub run_event_prefixes : List Text
run_event_prefixes =
    codes "run."
    ∷ codes "step."
    ∷ codes "attempt."
    ∷ codes "model."
    ∷ codes "tool."
    ∷ codes "approval."
    ∷ codes "artifact."
    ∷ codes "checkpoint."
    ∷ codes "effect."
    ∷ []

unfoldable pub any_start : List Text → Text → Bool
unfolding starts_with
any_start [] t = false
any_start (p ∷ ps) t = starts_with p t || any_start ps t

-- `is_run_event_frame`
unfoldable pub is_run_event_frame : Text → Bool
unfolding any_start codes
is_run_event_frame event_name = any_start run_event_prefixes event_name

abbrev pub object_or : Option Value → Option Entries
object_or (some (dict es)) = some es
object_or _ = none

-- `frame_data_json`; `none` is the STREAM_PARSE_ERROR.
unfoldable pub frame_data_json : (Text → Option Value) → SseFrame → Option Entries
unfolding strip
frame_data_json loads frame =
    if is_empty (strip (frame.data_field))
    then some no_entries
    else object_or (loads (frame.data_field))

abbrev pub is_type : Text → Value → Bool
is_type event_name (str s) = text_eq (codes s) event_name
is_type event_name _ = false

abbrev pub matched : Text → Result EventEnvelope → Option Thrown
matched event_name (ok e) =
    if is_type event_name (e.type) then none else some (sse_parse_error "EVENT_ENVELOPE_INVALID")
matched event_name (raised (event_envelope_error code)) = some (sse_parse_error code)
matched event_name (raised _) = some exception

-- `parse_run_event_data`, with the exception that the service makes of its error.
unfoldable pub parse_run_event_data : Parsers → Text → Entries → Option Thrown
unfolding from_dict text_eq
parse_run_event_data p event_name content = matched event_name (from_dict p (dict content))
