-- ===== src/Conversation/Turn.antt =====
-- The loop of `stream_conversation_message` (map-business-backend/app/services/conversation_service.py) over what its queue gives.
use map.Base.{
  ℕ, ◌-◌, String, Bool, true, false, not, ◌||◌, Option, none, some, List, [], ◌∷◌, ◌++◌, leb,
  str_eq, if◌then◌else◌,
}
use map.Envelope.{Value, none_value, str, surrogate_str, list, dict, Entries}
use map.Envelope.Canonical.{Text, codes}
use map.Envelope.Fields.{lookup, Parsers}
use map.Envelope.Events.{field_or}
use map.Sse.{SseFrame, SseStreamParser, new_parser, feed}
use map.Conversation.{
  StreamOutcome, Thrown, sse_parse_error, exception, Event, run_event, content_delta, error_event,
  done_event, Progress, Step, goes, throws, text_eq, is_empty, is_falsy, is_run_event_frame,
  frame_data_json, parse_run_event_data,
}

-- What the code calls of Python: `json.loads`, `uuid` and `datetime`, and `str` of a value that is no string.
pub record Python : Type 0 where
  pub loads : Text → Option Value
  pub parsers : Parsers
  pub text_of : Value → Text

-- What the queue gives, or what happens while it is awaited.
pub data Item : Type 0 where
  chunk : List ℕ → ℕ → Item
  upstream_eof upstream_error aborted cancelled : Item

-- What a turn does: it yields, it writes a checkpoint, or it writes the outcome and is over.
pub data Action : Type 0 where
  yielded : Event → Action
  checkpointed : Text → Action

pub data End : Type 0 where
  finalized : StreamOutcome → End
  waiting : End

abbrev pub is_word_of : String → Value → Bool
is_word_of word (str s) = str_eq s word
is_word_of word _ = false

-- Whether Python can look the value up in a set.
abbrev pub is_hashable : Value → Bool
is_hashable (list xs) = false
is_hashable (dict es) = false
is_hashable _ = true

abbrev pub get_field : String → Entries → Value
get_field k es = field_or none_value (lookup k es)

-- `str(v or fallback)`
abbrev pub str_or : (Value → Text) → Value → Text → Text
str_or text_of (str s) fallback = if is_empty (codes s) then fallback else codes s
str_or text_of (surrogate_str t) fallback = t
str_or text_of v fallback = if is_falsy v then fallback else text_of v

module _ (py : Python) where
  open py use {loads, parsers, text_of}

  -- The frame is a `content_delta`.
  abbrev pub on_delta : Progress → Value → Step
  on_delta s (str t) =
      goes (record s { accumulated = s.accumulated ++ codes t }) (content_delta (codes t) ∷ [])
  on_delta s (surrogate_str t) =
      goes (record s { accumulated = s.accumulated ++ t }) (content_delta t ∷ [])
  on_delta s _ = goes s []

  abbrev pub add_evidence : Progress → Entries → Progress
  add_evidence s es = record s {
    outcome = record (s.outcome) { evidence = s.outcome.evidence ++ es ∷ [] };
  }

  -- The frame is a `meta`.
  unfoldable pub on_meta : Progress → Entries → Step
  unfolding lookup
  on_meta s es =
      let type = get_field "type" es in
      if is_word_of "decision" type
      then goes (record s { outcome = record (s.outcome) { decision_json = some es } }) []
      else if not (is_hashable type)
      then throws exception s []
      else if is_word_of "tool_observation" type || is_word_of "evidence" type
      then goes (add_evidence s es) []
      else goes s []

  -- The frame is a `done`; a second one is ignored.
  unfoldable pub on_done : Progress → Entries → Step
  unfolding lookup is_falsy codes
  on_done s es =
      if s.outcome.done_received
      then goes s []
      else goes
          (record s {
            outcome = record (s.outcome) {
              done_received = true;
              content = str_or text_of (get_field "content" es) (s.accumulated);
              task_id = some (str_or text_of (get_field "task_id" es) []);
            };
          })
          []

  abbrev pub core_error : Option String → Option String
  core_error none = some "STREAM_CORE_ERROR"
  core_error (some code) = some code

  -- The frame is an `error`.
  abbrev pub on_error : Progress → Step
  on_error s =
      goes
        (record s {
          outcome = record (s.outcome) { error_code = core_error (s.outcome.error_code) };
        })
        []

  -- A frame that is no run event.
  unfoldable pub on_data : Text → Progress → Entries → Step
  unfolding text_eq codes on_meta on_done lookup
  on_data event s es =
      if text_eq event (codes "content_delta")
      then on_delta s (get_field "content" es)
      else if text_eq event (codes "meta")
      then on_meta s es
      else if text_eq event (codes "tool_evidence")
      then goes (add_evidence s es) []
      else if text_eq event (codes "done")
      then on_done s es
      else if text_eq event (codes "error")
      then on_error s
      else goes s []

  abbrev pub run_step : Text → Progress → Entries → Option Thrown → Step
  run_step event s es none = goes s (run_event event es ∷ [])
  run_step event s es (some t) = throws t s []

  -- A frame with its data.
  unfoldable pub on_frame : SseFrame → Progress → Option Entries → Step
  unfolding is_run_event_frame parse_run_event_data on_data
  on_frame f s none = throws (sse_parse_error "STREAM_PARSE_ERROR") s []
  on_frame f s (some es) =
      if is_run_event_frame (f.event)
      then run_step (f.event) s es (parse_run_event_data parsers (f.event) es)
      else on_data (f.event) s es

  unfoldable pub dispatch : SseFrame → Progress → Step
  unfolding on_frame frame_data_json
  dispatch f s = on_frame f s (frame_data_json loads f)

  abbrev pub and_yielded : List Event → Step → Step
  and_yielded es (goes s fs) = goes s (es ++ fs)
  and_yielded es (throws t s fs) = throws t s (es ++ fs)

  abbrev pub next : (Progress → Step) → Step → Step
  next more (goes s es) = and_yielded es (more s)
  next more (throws t s es) = throws t s es

  -- The frames of a chunk.
  unfoldable pub dispatch_all : List SseFrame → Progress → Step
  unfolding dispatch
  dispatch_all [] s = goes s []
  dispatch_all (f ∷ fs) s = next (dispatch_all fs) (dispatch f s)

  -- The outcome of a turn that is over before its stream is.
  abbrev pub cut_off : String → String → Text → StreamOutcome
  cut_off status code content = record {
    status = status;
    content = content;
    task_id = none;
    decision_json = none;
    evidence = [];
    error_code = some code;
    fallback_used = false;
    done_received = false;
  }

  abbrev pub code_of : Thrown → String
  code_of (sse_parse_error code) = code
  code_of exception = "STREAM_CORE_ERROR"

  abbrev pub content_or : Text → Text → Text
  content_or [] accumulated = accumulated
  content_or content accumulated = content

  abbrev pub status_of : Option String → String
  status_of none = "completed"
  status_of (some code) = "failed"

  -- The end of the stream.
  unfoldable pub at_eof : Progress → StreamOutcome
  at_eof s =
      if s.outcome.done_received
      then record (s.outcome) {
        status = status_of (s.outcome.error_code);
        content = content_or (s.outcome.content) (s.accumulated);
      }
      else cut_off "failed" "STREAM_EOF_WITHOUT_DONE" (s.accumulated)

  abbrev pub eof_error : Bool → List Action
  eof_error true = []
  eof_error false = yielded (error_event "STREAM_EOF_WITHOUT_DONE") ∷ []

  -- What is yielded after the outcome is written.
  abbrev pub closing : StreamOutcome → List Action
  closing o = yielded (done_event (o.status) (o.content)) ∷ []

  abbrev pub actions_of : List Event → List Action
  actions_of [] = []
  actions_of (e ∷ es) = yielded e ∷ actions_of es

  abbrev pub doing : List Action → End × List Action → End × List Action
  doing before (e, later) = (e, before ++ later)

  -- The checkpoint after a chunk, and the time of the last one.
  abbrev pub checkpoint : ℕ → ℕ → ℕ → Text → List Action × ℕ
  checkpoint interval now last content =
      if leb interval (now - last) then (checkpointed content ∷ [], now) else ([], last)

  -- After the frames of a chunk.
  abbrev pub stepped :
      (Progress → List Action × ℕ) → (Progress → ℕ → End × List Action) → Step → End × List Action
  stepped saved more (throws t s es) = (
    finalized (cut_off "failed" (code_of t) (s.accumulated)),
    actions_of es
        ++ yielded (error_event (code_of t))
          ∷ closing (cut_off "failed" (code_of t) (s.accumulated)),
  )
  stepped saved more (goes s es) =
      let (done, last) = saved s in doing (actions_of es) (doing done (more s last))

  abbrev pub parsed :
      (Progress → List Action × ℕ)
      → (SseStreamParser → Progress → ℕ → End × List Action)
      → Progress
      → Option (List SseFrame × SseStreamParser)
      → End × List Action
  parsed saved more s none =
      stepped saved (more new_parser) (throws (sse_parse_error "STREAM_DECODE_ERROR") s [])
  parsed saved more s (some (frames, q)) = stepped saved (more q) (dispatch_all frames s)

  -- The loop; with no item left it still waits.
  unfoldable pub consume : ℕ → List Item → SseStreamParser → Progress → ℕ → End × List Action
  unfolding feed dispatch_all at_eof
  consume interval [] q s last = (waiting, [])
  consume interval (chunk bytes now ∷ items) q s last =
      parsed (λ s. checkpoint interval now last (s.accumulated))
        (λ q s last. consume interval items q s last) s (feed q bytes)
  consume interval (upstream_eof ∷ items) q s last =
      (finalized (at_eof s), eof_error (s.outcome.done_received) ++ closing (at_eof s))
  consume interval (upstream_error ∷ items) q s last =
      stepped (λ s. ([], 0)) (λ s last. (waiting, [])) (throws exception s [])
  consume interval (aborted ∷ items) q s last = (
    finalized (cut_off "stopped" "STREAM_ABORTED" (s.accumulated)),
    closing (cut_off "stopped" "STREAM_ABORTED" (s.accumulated)),
  )
  consume interval (cancelled ∷ items) q s last =
      (finalized (cut_off "stopped" "STREAM_ABORTED" (s.accumulated)), [])
