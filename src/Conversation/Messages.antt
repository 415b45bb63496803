-- ===== src/Conversation/Messages.antt =====
-- The rows of `messages`: map-business-backend/app/repositories/conversations.py and app/services/message_reconciler.py over app/db/models/conversation.py.
pub mod Rows
mod Stale
pub mod History
pub mod Replies
use map.Base.{
  ℕ, zero, suc, ◌+◌, ◌-◌, String, Bool, true, false, not, ◌&&◌, ◌||◌, Option, none, some, List, [],
  ◌∷◌, ◌++◌, ltb, leb, ◌==◌, str_eq, take, length, if◌then◌else◌,
}
use map.Envelope.{Entries}
use map.Envelope.Canonical.{Text}
use map.Conversation.{StreamOutcome}

-- `Message`
pub record Message : Type 0 where
  pub id : ℕ
  pub conversation_id : ℕ
  pub workspace_id : ℕ
  pub role : String
  pub status : String
  pub content : Text
  pub request_id : Option String
  pub task_id : Option Text
  pub decision_json : Option Entries
  pub stream_error : Option String
  pub fallback_used : Bool
  pub updated_at : ℕ
  pub completed_at : Option ℕ
  pub version : ℕ

abbrev pub Table : Type 0
Table = List Message

abbrev pub is_streaming : Message → Bool
is_streaming m = str_eq m.status "streaming"

-- `update(Message).where(...).values(...)`
unfoldable pub update_where : (Message → Bool) → (Message → Message) → Table → Table
update_where p f [] = []
update_where p f (m ∷ ms) = (if p m then f m else m) ∷ update_where p f ms

-- Its rowcount.
unfoldable pub count_where : (Message → Bool) → Table → ℕ
count_where p [] = 0
count_where p (m ∷ ms) = let n = count_where p ms in if p m then suc n else n

unfoldable pub find_row : ℕ → Table → Option Message
find_row id [] = none
find_row id (m ∷ ms) = if m.id == id then some m else find_row id ms

abbrev pub streaming_row : ℕ → Message → Bool
streaming_row id m = (m.id == id) && is_streaming m

-- `checkpoint_content`
unfoldable pub checkpoint_content : ℕ → ℕ → Text → Table → Table
unfolding update_where
checkpoint_content now id content =
    update_where (streaming_row id)
      (λ m. record m { content = content; version = suc (m.version); updated_at = now })

-- The arguments of `finalize_message`.
pub record Final : Type 0 where
  pub status : String
  pub content : Option Text
  pub task_id : Option Text
  pub decision_json : Option Entries
  pub stream_error : Option String
  pub fallback_used : Option Bool

abbrev pub given_or {ℓ} : {A : Type ℓ} → Option A → A → A
given_or none a = a
given_or (some b) a = b

abbrev pub given_or_option {ℓ} : {A : Type ℓ} → Option A → Option A → Option A
given_or_option none a = a
given_or_option (some b) a = some b

-- `if task_id:`, which takes the empty text for none.
abbrev pub nonempty_or : Option Text → Option Text → Option Text
nonempty_or none a = a
nonempty_or (some []) a = a
nonempty_or (some (c ∷ cs)) a = some (c ∷ cs)

abbrev pub finalized_row : ℕ → Final → Message → Message
finalized_row now f m = record m {
  status = f.status;
  content = given_or (f.content) (m.content);
  task_id = nonempty_or (f.task_id) (m.task_id);
  decision_json = given_or_option (f.decision_json) (m.decision_json);
  stream_error = given_or_option (f.stream_error) (m.stream_error);
  fallback_used = given_or (f.fallback_used) (m.fallback_used);
  updated_at = now;
  completed_at = some now;
  version = suc (m.version);
}

-- `finalize_message`, and whether it says that a row was changed.
unfoldable pub finalize_message : ℕ → ℕ → Final → Table → Bool × Table
unfolding update_where count_where
finalize_message now id f ms = (
  not (count_where (streaming_row id) ms == 0),
  update_where (streaming_row id) (finalized_row now f) ms,
)

-- The arguments that `_finalize` makes of an outcome.
abbrev pub final_of : StreamOutcome → Final
final_of o = record {
  status = o.status;
  content = some (o.content);
  task_id = o.task_id;
  decision_json = o.decision_json;
  stream_error = o.error_code;
  fallback_used = some (o.fallback_used);
}

-- The statement of `stop_message` for a message that it has read as streaming.
abbrev pub stopped_by_user : Final
stopped_by_user = record {
  status = "stopped";
  content = none;
  task_id = none;
  decision_json = none;
  stream_error = some "STREAM_ABORTED";
  fallback_used = none;
}

abbrev pub same_request : String → Option String → Bool
same_request r none = false
same_request r (some s) = str_eq s r

-- The unique index on the request ids of assistants' messages.
unfoldable pub request_taken : String → Table → Bool
request_taken r [] = false
request_taken r (m ∷ ms) =
    (str_eq m.role "assistant" && same_request r m.request_id) || request_taken r ms

unfoldable pub id_taken : ℕ → Table → Bool
id_taken id [] = false
id_taken id (m ∷ ms) = (m.id == id) || id_taken id ms

-- The arguments of `create_message_pair`, with the ids that the database draws.
pub record Pair : Type 0 where
  pub conversation_id : ℕ
  pub workspace_id : ℕ
  pub request_id : String
  pub user_content : Text
  pub user_id : ℕ
  pub assistant_id : ℕ

abbrev pub user_message : ℕ → Pair → Message
user_message now a = record {
  id = a.user_id;
  conversation_id = a.conversation_id;
  workspace_id = a.workspace_id;
  role = "user";
  status = "completed";
  content = a.user_content;
  request_id = some (a.request_id);
  task_id = none;
  decision_json = none;
  stream_error = none;
  fallback_used = false;
  updated_at = now;
  completed_at = some now;
  version = 1;
}

abbrev pub assistant_message : ℕ → Pair → Message
assistant_message now a = record {
  id = a.assistant_id;
  conversation_id = a.conversation_id;
  workspace_id = a.workspace_id;
  role = "assistant";
  status = "streaming";
  content = [];
  request_id = some (a.request_id);
  task_id = none;
  decision_json = none;
  stream_error = none;
  fallback_used = false;
  updated_at = now;
  completed_at = none;
  version = 1;
}

-- An insert that a key or the index refuses.
abbrev pub refuses : Pair → Table → Bool
refuses a ms =
    request_taken (a.request_id) ms
    || (id_taken (a.user_id) ms || (id_taken (a.assistant_id) ms || (a.user_id == a.assistant_id)))

-- `create_message_pair`; the IntegrityError, after which the session is rolled back, leaves the rows.
unfoldable pub create_message_pair : ℕ → Pair → Table → Bool × Table
unfolding request_taken id_taken
create_message_pair now a ms =
    if refuses a ms
    then (false, ms)
    else (true, ms ++ user_message now a ∷ assistant_message now a ∷ [])

-- `Message.status == "streaming", Message.updated_at < threshold`
abbrev pub is_stale : ℕ → Message → Bool
is_stale threshold m = is_streaming m && ltb m.updated_at threshold

unfoldable pub filter_rows : (Message → Bool) → Table → Table
filter_rows p [] = []
filter_rows p (m ∷ ms) = let rest = filter_rows p ms in if p m then m ∷ rest else rest

unfoldable pub insert_by_time : Message → Table → Table
insert_by_time m [] = m ∷ []
insert_by_time m (n ∷ ns) =
    let more = insert_by_time m ns in if leb m.updated_at n.updated_at then m ∷ n ∷ ns else n ∷ more

-- `order_by(Message.updated_at.asc())`
unfoldable pub sort_by_time : Table → Table
unfolding insert_by_time
sort_by_time [] = []
sort_by_time (m ∷ ms) = insert_by_time m (sort_by_time ms)

-- The subquery of the reconciler: the ids of the stale rows, the oldest first, up to the limit.
unfoldable pub stale_ids : ℕ → ℕ → Table → Table
unfolding sort_by_time filter_rows
stale_ids threshold limit ms = take limit (sort_by_time (filter_rows (is_stale threshold) ms))

-- `Message.id.in_(stale_ids)`, and nothing else.
abbrev pub is_among : Table → Message → Bool
is_among chosen m = id_taken (m.id) chosen

abbrev pub interrupted_row : ℕ → Message → Message
interrupted_row now m = record m {
  status = "failed";
  stream_error = some "STREAM_INTERRUPTED";
  updated_at = now;
  completed_at = some now;
  version = suc (m.version);
}

-- The UPDATE of the reconciler on the rows that its subquery has chosen.
unfoldable pub reconcile_rows : ℕ → Table → Table → Table
unfolding update_where id_taken
reconcile_rows now chosen = update_where (is_among chosen) (interrupted_row now)

-- `reconcile_stale_streaming_messages`, with whether the job's lease is held, when nothing comes
-- between the subquery and the UPDATE.
unfoldable pub reconcile : Bool → ℕ → ℕ → ℕ → Table → Table
unfolding stale_ids reconcile_rows
reconcile lease_ok now stale_after limit ms =
    if lease_ok then reconcile_rows now (stale_ids (now - stale_after) limit ms) ms else ms
