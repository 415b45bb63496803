-- ===== src/Config/Applying.antt =====
-- `ConfigMutationService.apply_mutation` of map-business-backend/app/services/config_mutation.py.
use map.Base.{
  not, ◌&&◌, ◌||◌, ℕ, String, Bool, false, Option, none, some, List, [], ◌∷◌, ◌++◌, ◌==◌,
  if◌then◌else◌,
}
use Prim.Native.Char.{Char}
use map.Envelope.{Items}
use map.Envelope.Canonical.{Text}
use map.Config.{
  Refusals, Appended, appended, audit_write_error, other_exception, fits_text, fits_width, Chain,
  Append, append_audit_event, first,
}
use map.Config.Mutations.{ConfigMutation, Database}
use map.Config.Store.{
  States, File, holds, corrupt, Update, Prepared, prepared, rejected, changed_since, fails, Written,
  written, changed_between, write_failed, unreadable, prepare_update, apply_prepared,
}

-- The request, its principal, and what the clock and the database draw for it.
pub record Call : Type 0 where
  pub resource_type : String
  pub resource_id : String
  pub action : String
  pub workspace_id : Option String
  pub user_id : String
  pub subject : Option String
  pub roles : List String
  pub request_id : Option String
  pub source_ip : Option String
  pub user_agent : Option String
  pub now : ℕ
  pub mutation_id : ℕ
  pub event_id : String

-- `agent[:2000] if agent else None`
abbrev pub agent : Option String → Option String
agent none = none
agent (some String.[]) = none
agent (some (String.◌∷◌ c a)) = some (first 2000 (String.◌∷◌ c a))

-- The outcome that an event records.
pub record Recorded : Type 0 where
  pub status : String
  pub failure_code : Option String
  pub before_hash : Option String
  pub after_hash : Option String
  pub json_patch : Option Items
  pub error_message : Option String

-- The arguments with which `_append_event` calls `append_audit_event`.
unfoldable pub event_of : Call → Recorded → Append
unfolding first
event_of c r = record {
  columns = record {
    workspace_id = c.workspace_id;
    resource_type = c.resource_type;
    resource_id = c.resource_id;
    action = c.action;
    actor_user_id = c.user_id;
    actor_subject = c.subject;
    actor_roles = c.roles;
    request_id = c.request_id;
    status = r.status;
    failure_code = r.failure_code;
    before_hash = r.before_hash;
    after_hash = r.after_hash;
    json_patch = r.json_patch;
    recovered = false;
    error_message = r.error_message;
  };
  source_ip = c.source_ip;
  user_agent = agent (c.user_agent);
  id = c.event_id;
  now = c.now;
}

abbrev colon : Char
colon = ":"

-- `f"{resource_type}:{resource_id}"`
unfoldable pub resource_of : String → String → String
resource_of String.[] id = String.◌∷◌ colon id
resource_of (String.◌∷◌ c t) id = String.◌∷◌ c (resource_of t id)

unfoldable pub pending_mutation : Call → String → String → ConfigMutation
unfolding resource_of
pending_mutation c expected target = record {
  id = c.mutation_id;
  resource = resource_of (c.resource_type) (c.resource_id);
  expected_hash = expected;
  target_hash = some target;
  status = "pending";
  error = none;
  workspace_id = c.workspace_id;
  action = some (c.action);
  actor_user_id = some (c.user_id);
  actor_subject = c.subject;
  actor_roles = some (c.roles);
  request_id = c.request_id;
  finished_at = none;
}

-- `_finish_mutation`, without another target.
unfoldable pub finish_mutation :
    ℕ → String → Option String → ℕ → List ConfigMutation → List ConfigMutation
finish_mutation now status error id [] = []
finish_mutation now status error id (m ∷ ms) =
    (if m.id == id then record m { status = status; error = error; finished_at = some now } else m)
    ∷ finish_mutation now status error id ms

abbrev pub unwritten : String → String → Option String → Recorded
unwritten status code before = record {
  status = status;
  failure_code = some code;
  before_hash = before;
  after_hash = none;
  json_patch = none;
  error_message = none;
}

abbrev pub code_or_rejected : Option String → String
code_or_rejected none = "BUSINESS_REJECTED"
code_or_rejected (some String.[]) = "BUSINESS_REJECTED"
code_or_rejected (some (String.◌∷◌ c s)) = String.◌∷◌ c s

-- Whether the row fits the columns of `config_mutations`.
unfoldable pub mutation_fits : ConfigMutation → Bool
mutation_fits m =
    fits_text 192 m.resource
    && (fits_text 64 m.expected_hash
        && (fits_width 64 m.target_hash
            && (fits_width 64 m.action
                && (fits_width 192 m.actor_user_id
                    && (fits_width 192 m.actor_subject && fits_width 128 m.request_id)))))

-- How the database refuses during a call, for reasons of its own: the commit of the pending row, the flush that finishes it, the
-- append of the event, and the last commit.
pub record Troubles : Type 0 where
  pub pending_refused : Bool
  pub finish_refused : Bool
  pub append_refused : Refusals
  pub commit_refused : Bool

module _ (sha256_hex : Text → Text) (s : States) where
  -- `audit_failed` is the answer AUDIT_WRITE_FAILED, `escapes` any exception that the call lets through.
  pub data Reply : Type 0 where
    returned : s.State → Reply
    http : ℕ → Option String → Reply
    audit_failed : Reply
    escapes : Reply

  -- The answer, with the file and the tables that are left.
  pub record Result : Type 0 where
    pub reply : Reply
    pub file : File s
    pub database : Database

  -- The end of a call that commits nothing more.
  abbrev pub aborted : Reply → File s → Database → Result
  aborted answer f before = record { reply = answer; file = f; database = before }

  abbrev pub committed : Reply → File s → List ConfigMutation → Chain → Result
  committed answer f ms c = record {
    reply = answer;
    file = f;
    database = record { mutations = ms; chain = c };
  }

  -- `_append_event` and the commit before an HTTPException is raised: what either raises escapes.
  abbrev pub closing : Bool → Reply → File s → Database → List ConfigMutation → Appended → Result
  closing refused answer f before ms (appended c) =
      if refused then aborted escapes f before else committed answer f ms c
  closing refused answer f before ms audit_write_error = aborted escapes f before
  closing refused answer f before ms other_exception = aborted escapes f before

  unfoldable pub audit :
      Call → Recorded → Refusals → Bool → Reply → File s → Database → List ConfigMutation → Result
  unfolding append_audit_event event_of
  audit c r f refused answer file before ms =
      closing refused answer file before ms
        (append_audit_event sha256_hex f (event_of c r) (before.chain))

  -- Step 5: `AuditWriteError` alone is caught, and the state has been written.
  abbrev pub succeeding : Bool → s.State → Database → List ConfigMutation → Appended → Result
  succeeding refused target before ms (appended c) =
      if refused
      then aborted escapes (holds target) before
      else committed (returned target) (holds target) ms c
  succeeding refused target before ms audit_write_error = aborted audit_failed (holds target) before
  succeeding refused target before ms other_exception = aborted escapes (holds target) before

  -- The event of step 5.
  abbrev pub applied_record : s.State → s.State → Recorded
  applied_record current target = record {
    status = "applied";
    failure_code = none;
    before_hash = some (s.state_hash current);
    after_hash = some (s.state_hash target);
    json_patch = some (s.json_patch_diff current target);
    error_message = none;
  }

  -- Step 5 and the two ways in which step 4 is caught; `file` is the state file at step 4. The flush of `_finish_mutation`
  -- comes before the append in step 4 and after it in step 5; what it raises escapes.
  abbrev pub finish : Call → Troubles → s.State → s.State → File s → Database → Written → Result
  finish c t current target file db written =
      succeeding (t.finish_refused || t.commit_refused) target db
        (finish_mutation (c.now) "applied" none (c.mutation_id) (db.mutations))
        (append_audit_event sha256_hex t.append_refused (event_of c (applied_record current target))
          (db.chain))
  finish c t current target file db changed_between =
      audit c (unwritten "rejected" "CONCURRENT_MODIFICATION" (some (s.state_hash current)))
        t.append_refused (t.finish_refused || t.commit_refused)
        (http 409 (some "CONCURRENT_MODIFICATION")) file db
        (finish_mutation (c.now) "failed" (some "concurrent modification between prepare and apply")
          (c.mutation_id) (db.mutations))
  finish c t current target file db write_failed =
      audit c (unwritten "failed" "STORE_WRITE_FAILED" (some (s.state_hash current)))
        t.append_refused (t.finish_refused || t.commit_refused)
        (http 500 (some "STORE_WRITE_FAILED")) file db
        (finish_mutation (c.now) "failed" (some "store write failed") (c.mutation_id)
          (db.mutations))
  finish c t current target file db unreadable = aborted escapes file db

  -- The tables after the commit of step 3.
  abbrev pub with_pending : Call → String → String → Database → Database
  with_pending c expected target db = record db {
    mutations = db.mutations ++ pending_mutation c expected target ∷ [];
  }

  -- Whether the commit of step 3 fails.
  abbrev pub refuses_pending : Call → Troubles → String → String → Bool
  refuses_pending c t expected target =
      t.pending_refused || not (mutation_fits (pending_mutation c expected target))

  -- Steps 3 to 5.
  abbrev pub from_prepared :
      Call → Troubles → Bool → s.State → File s → Database → Prepared s → Result
  from_prepared c t writes current file db (prepared target) =
      if refuses_pending c t (s.state_hash current) (s.state_hash target)
      then aborted escapes file db
      else finish c t current target file
          (with_pending c (s.state_hash current) (s.state_hash target) db)
          (apply_prepared s (s.state_hash current) writes file)
  from_prepared c t writes current file db (rejected n code) =
      audit c (unwritten "rejected" (code_or_rejected code) (some (s.state_hash current)))
        t.append_refused t.commit_refused (http n code) file db (db.mutations)
  from_prepared c t writes current file db changed_since =
      audit c (unwritten "rejected" "CONCURRENT_MODIFICATION" (some (s.state_hash current)))
        t.append_refused t.commit_refused (http 409 (some "CONCURRENT_MODIFICATION")) file db
        (db.mutations)
  from_prepared c t writes current file db fails = aborted escapes file db

  -- The event of an unreadable state file.
  abbrev pub bad_file_record : String → Recorded
  bad_file_record e = record {
    status = "failed";
    failure_code = some "BAD_STATE_FILE";
    before_hash = none;
    after_hash = none;
    json_patch = none;
    error_message = some e;
  }

  -- The state file is read three times, and other writers may change it in between: at the load,
  -- at `prepare_update` and at `apply_prepared`.
  unfoldable pub apply_mutation :
      Call → Troubles → (s.State → Update s) → Bool → File s → File s → File s → Database → Result
  unfolding prepare_update apply_prepared audit finish_mutation pending_mutation mutation_fits
  apply_mutation c t updater writes (corrupt e) file1 file2 db =
      audit c (bad_file_record e) t.append_refused t.commit_refused
        (http 500 (some "BAD_STATE_FILE")) file2 db (db.mutations)
  apply_mutation c t updater writes (holds current) file1 file2 db =
      from_prepared c t writes current file2 db
        (prepare_update s (c.now) (s.state_hash current) updater file1)
