-- ===== src/Conversation/Examples.antt =====
-- Concrete turns and rows (map-business-backend/app/services/conversation_service.py, app/repositories/conversations.py) and the theorems there.
use map.Base.{ℕ, ◌-◌, String, true, false, none, some, List, [], ◌∷◌, ◌≡◌, refl, subst}
use map.Envelope.{str, str_key, dict, entry, no_entries}
use map.Envelope.Canonical.{codes}
use map.Envelope.Samples.{parsers}
use map.Sse.{SseFrame, new_parser, feed, flatten}
use map.Sse.Splitting.{NoCrCr}
use map.Sse.Utf8.{decode}
use map.Sse.Feeding.{Clear}
use map.Conversation.{StreamOutcome, new_progress}
use map.Conversation.Turn.{Python, upstream_eof, finalized, consume, dispatch_all}
use map.Conversation.Streams.{arriving, bytes_of, concluded, consume-flatten}
use map.Conversation.Completed.{has_event}
use map.Conversation.Sources.{Source, consume-Completed}
use map.Conversation.Messages.{
  Message, finalize_message, stopped_by_user, finalized_row, interrupted_row, reconcile_rows,
  stale_ids, find_row, request_taken, id_taken,
}
use map.Conversation.Messages.History.{
  Statement, checkpointing, finalizing, creating, reconciling, execute_all, execute_all-terminal,
  reconcile_rows-overwrites,
}
use map.Conversation.Messages.Replies.{OneReply, execute_all-OneReply}

abbrev py : Python
py = record {
  loads = λ t. some (dict (entry (str_key "content") (str "hi") no_entries));
  parsers = parsers;
  text_of = λ v. [];
}

-- `event: done\n\n` in two pieces.
abbrev pieces : List (List ℕ × ℕ)
pieces = (101 ∷ 118 ∷ 101 ∷ 110 ∷ 116 ∷ 58 ∷ 100 ∷ [], 3) ∷ (111 ∷ 110 ∷ 101 ∷ 10 ∷ 10 ∷ [], 7) ∷ []

abbrev done_frame : SseFrame
done_frame = record { event = 100 ∷ 111 ∷ 110 ∷ 101 ∷ []; data_field = [] }

pieces-Clear : Clear new_parser (flatten (bytes_of py pieces))
unfolding flatten decode
pieces-Clear t s h =
    let e : 101 ∷ 118 ∷ 101 ∷ 110 ∷ 116 ∷ 58 ∷ 100 ∷ 111 ∷ 110 ∷ 101 ∷ 10 ∷ 10 ∷ [] ≡ t = cc in
    subst NoCrCr e
      (refl, (refl, (refl, (refl, (refl, (refl, (refl, (refl, (refl, (refl, (refl, tt)))))))))))

pieces-feed : feed new_parser (flatten (bytes_of py pieces)) ≡ some (done_frame ∷ [], new_parser)
unfolding feed flatten codes
pieces-feed = refl

consume-flatten_example :
    (consume py 250 (arriving py pieces (upstream_eof ∷ [])) new_parser new_progress 0).0
    ≡ concluded py upstream_eof (dispatch_all py (done_frame ∷ []) new_progress)
consume-flatten_example =
    consume-flatten py 250 0 pieces upstream_eof [] (done_frame ∷ []) new_parser pieces-Clear
      pieces-feed refl

abbrev outcome : StreamOutcome
outcome = record {
  status = "completed";
  content = [];
  task_id = some [];
  decision_json = none;
  evidence = [];
  error_code = none;
  fallback_used = false;
  done_received = true;
}

pieces-consume :
    (consume py 250 (arriving py pieces (upstream_eof ∷ [])) new_parser new_progress 0).0
    ≡ finalized outcome
unfolding consume codes
pieces-consume = refl

consume-Completed_example :
    (src : Source py 250 new_parser new_progress (arriving py pieces (upstream_eof ∷ [])) outcome)
    × (has_event "done" (src.frames) ≡ true)
    × (has_event "error" (src.frames) ≡ false)
consume-Completed_example =
    consume-Completed py 250 (arriving py pieces (upstream_eof ∷ [])) 0 outcome pieces-consume refl

abbrev message : String → Message
message status = record {
  id = 4;
  conversation_id = 1;
  workspace_id = 1;
  role = "assistant";
  status = status;
  content = [];
  request_id = some "r";
  task_id = none;
  decision_json = none;
  stream_error = none;
  fallback_used = false;
  updated_at = 10;
  completed_at = none;
  version = 1;
}

abbrev statements : List (Statement × ℕ)
statements =
    (finalizing 4 stopped_by_user, 20)
    ∷ (
      creating (record {
        conversation_id = 1;
        workspace_id = 1;
        request_id = "r";
        user_content = [];
        user_id = 8;
        assistant_id = 9;
      }),
      21,
    )
    ∷ (
      creating (record {
        conversation_id = 1;
        workspace_id = 1;
        request_id = "q";
        user_content = [];
        user_id = 8;
        assistant_id = 9;
      }),
      22,
    )
    ∷ (checkpointing 4 (65 ∷ []), 23)
    ∷ (reconciling true 5 200, 40)
    ∷ []

execute_all-terminal_example :
    find_row 4 (execute_all statements (message "completed" ∷ [])) ≡ some (message "completed")
unfolding find_row id_taken
execute_all-terminal_example =
    execute_all-terminal statements (message "completed" ∷ []) (message "completed") (refl, tt) refl
      refl

execute_all-OneReply_example : OneReply (execute_all statements (message "streaming" ∷ []))
unfolding request_taken
execute_all-OneReply_example =
    execute_all-OneReply statements (message "streaming" ∷ []) (λ r a. refl, tt)

reconcile_rows-overwrites_example :
    find_row 4 (
      reconcile_rows 400
        (stale_ids (400 - 300) 200 (message "streaming" ∷ []))
        ((finalize_message 399 4 stopped_by_user (message "streaming" ∷ [])).1))
    ≡ some (interrupted_row 400 (finalized_row 399 stopped_by_user (message "streaming")))
unfolding find_row stale_ids id_taken
reconcile_rows-overwrites_example =
    reconcile_rows-overwrites 300 200 400 399 stopped_by_user (message "streaming" ∷ [])
      (message "streaming") refl refl refl
