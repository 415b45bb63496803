-- ===== src/Config/Mutations.antt =====
-- `ConfigMutation` (map-business-backend/app/db/models/audit.py) and `reconcile_config_mutations` of map-business-backend/app/services/config_mutation.py.
use map.Base.{
  ℕ, String, Bool, true, false, Option, none, some, List, [], ◌∷◌, str_eq, ◌==◌, length,
  if◌then◌else◌,
}
use map.Envelope.Canonical.{Text}
use map.Config.{Chain, Append, append_audit_event, Refusals, Appended, appended}
use Prim.Native.Char.{code}

-- `ConfigMutation`, less `created_at`.
pub record ConfigMutation : Type 0 where
  pub id : ℕ
  pub resource : String
  pub expected_hash : String
  pub target_hash : Option String
  pub status : String
  pub error : Option String
  pub workspace_id : Option String
  pub action : Option String
  pub actor_user_id : Option String
  pub actor_subject : Option String
  pub actor_roles : Option (List String)
  pub request_id : Option String
  pub finished_at : Option ℕ

-- The two tables of the transaction.
pub record Database : Type 0 where
  pub mutations : List ConfigMutation
  pub chain : Chain

-- What reading the state file gives: the hash of the state, or the text of BadStateFileError.
pub data Loaded : Type 0 where
  state : String → Loaded
  bad_state_file : String → Loaded

abbrev pub current_hash : Loaded → Option String
current_hash (state h) = some h
current_hash (bad_state_file e) = none

abbrev pub bad_file : Loaded → Option String
bad_file (state h) = none
bad_file (bad_state_file e) = some e

-- `resource.partition(":")`, its first and its last part.
unfoldable pub partition : String → String × String
partition String.[] = (String.[], String.[])
partition (String.◌∷◌ c s) =
    let rest = partition s in if code c == 58 then (String.[], s) else (String.◌∷◌ c rest.0, rest.1)

-- `s or default`
abbrev pub text_or : Option String → String → String
text_or none d = d
text_or (some String.[]) d = d
text_or (some (String.◌∷◌ c s)) d = String.◌∷◌ c s

abbrev pub roles_or : Option (List String) → List String
roles_or none = []
roles_or (some rs) = rs

-- `mutation.target_hash and current_hash == mutation.target_hash`
abbrev pub is_target : String → Option String → Bool
is_target h none = false
is_target h (some String.[]) = false
is_target h (some (String.◌∷◌ c s)) = str_eq h (String.◌∷◌ c s)

-- The status and the failure code.
unfoldable pub classify : Option String → ConfigMutation → String × Option String
classify none m = ("failed", some "BAD_STATE_FILE")
classify (some h) m =
    if str_eq h m.expected_hash
    then ("failed", some "NO_WRITE")
    else if is_target h (m.target_hash)
    then ("applied", none)
    else ("failed", some "UNKNOWN_STATE")

abbrev pub observed_hash : Option String → ConfigMutation → String → Option String
observed_hash current m status = if str_eq status "applied" then m.target_hash else current

-- The event of a recovered mutation, with the id that the database draws.
unfoldable pub recovered_event : ℕ → (ConfigMutation → String) → Loaded → ConfigMutation → Append
unfolding classify partition
recovered_event now draw load m =
    let verdict = classify (current_hash load) m in
    record {
      columns = record {
        workspace_id = m.workspace_id;
        resource_type = text_or (some (partition (m.resource)).0) "config";
        resource_id = (partition (m.resource)).1;
        action = text_or (m.action) "reconcile";
        actor_user_id = text_or (m.actor_user_id) "system:reconciler";
        actor_subject = some (text_or (m.actor_subject) "system:reconciler");
        actor_roles = roles_or (m.actor_roles);
        request_id = m.request_id;
        status = verdict.0;
        failure_code = verdict.1;
        before_hash = some (m.expected_hash);
        after_hash = observed_hash (current_hash load) m verdict.0;
        json_patch = none;
        recovered = true;
        error_message = bad_file load;
      };
      source_ip = none;
      user_agent = none;
      id = draw m;
      now = now;
    }

abbrev pub is_pending : ConfigMutation → Bool
is_pending m = str_eq m.status "pending"

unfoldable pub pending_of : List ConfigMutation → List ConfigMutation
pending_of [] = []
pending_of (m ∷ ms) = let rest = pending_of ms in if is_pending m then m ∷ rest else rest

-- `UPDATE config_mutations SET status, finished_at WHERE id = :id`
unfoldable pub close_row : ℕ → String → ℕ → List ConfigMutation → List ConfigMutation
close_row now status id [] = []
close_row now status id (m ∷ ms) =
    (if m.id == id then record m { status = status; finished_at = some now } else m)
    ∷ close_row now status id ms

abbrev pub and_then : Option Database → (Database → Option Database) → Option Database
and_then none k = none
and_then (some d) k = k d

-- What is outside of the tables for one run of the reconciler: the time, the ids that the database draws, what reading the state
-- file gives, how the database refuses the statements of a mutation, and whether it refuses the commit.
pub record Surroundings : Type 0 where
  pub now : ℕ
  pub draw : ConfigMutation → String
  pub load : Loaded
  pub refusals : ConfigMutation → Refusals
  pub commit_refused : Bool

abbrev pub with_chain : List ConfigMutation → Appended → Option Database
with_chain ms (appended c) = some (record { mutations = ms; chain = c })
with_chain ms _ = none

-- The number of recovered mutations, with the tables at the commit; without a commit the transaction leaves them as they were.
abbrev pub committed :
    Bool → List ConfigMutation → Database → Option Database → Option (ℕ × Database)
committed commit_refused [] db o = some (0, db)
committed commit_refused (m ∷ ms) db none = none
committed commit_refused (m ∷ ms) db (some d) =
    if commit_refused then none else some (length (m ∷ ms), d)

module _ (sha256_hex : Text → Text) (w : Surroundings) where
  -- One turn of the loop; `none` is an exception.
  unfoldable pub reconcile_row : ConfigMutation → Database → Option Database
  unfolding close_row classify append_audit_event recovered_event
  reconcile_row m db =
      with_chain (close_row w.now (classify (current_hash w.load) m).0 (m.id) (db.mutations)) (
        append_audit_event sha256_hex (w.refusals m) (recovered_event w.now w.draw w.load m)
          (db.chain))

  unfoldable pub reconcile_rows : List ConfigMutation → Database → Option Database
  unfolding reconcile_row
  reconcile_rows [] db = some db
  reconcile_rows (m ∷ ms) db = and_then (reconcile_row m db) (reconcile_rows ms)

  unfoldable pub reconcile_config_mutations : Database → Option (ℕ × Database)
  unfolding pending_of reconcile_rows
  reconcile_config_mutations db =
      let pending = pending_of (db.mutations) in
      committed w.commit_refused pending db (reconcile_rows pending db)
