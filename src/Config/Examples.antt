-- ===== src/Config/Examples.antt =====
-- Tests of the audit chain, its verifier, the reconciler and `apply_mutation` (map-business-backend/app/services/config_mutation.py, app/api/audit_events.py).
use map.Base.{
  Bool, ℕ, zero, suc, ◌+◌, String, true, false, Option, none, some, List, [], ◌∷◌, length, ◌≡◌, ◌⊎◌,
  refl,
}
use Prim.Native.Nat.{◌*◌, ◌%◌}
use map.Envelope.{no_items}
use map.Envelope.Canonical.{Text}
use map.Config.{
  Refusals, Appended, appended, fits, first, ConfigAuditEvent, Chain, Append, append_audit_event,
  conflicts,
}
use map.Config.Record.{AuditRecord}
use map.Config.Linked.{IsChain}
use map.Config.Verify.{intact, broken, verify_chain_rows}
use map.Config.Evidence.{SameRecords, Collision, verify_chain_rows-evident}
use map.Config.Mutations.{
  Surroundings, recovered_event, ConfigMutation, Database, state, classify, partition,
  reconcile_config_mutations,
}
use map.Config.Store.{States, holds, changes}
use map.Config.Applying.{Troubles, Call, Reply, returned, Result, apply_mutation}
use map.Config.Audited.{Audited}

-- A digest of 64 characters in the place of SHA-256.
unfoldable sum : Text → ℕ
sum [] = 7
sum (c ∷ cs) = c + 2 * sum cs

unfoldable fill : ℕ → ℕ → Text
fill zero c = []
fill (suc n) c = c ∷ fill n c

unfoldable digest : Text → Text
unfolding sum fill
digest t = fill 64 (sum t % 1000)

length-digest : (t : Text) → length (digest t) ≡ 64
unfolding digest fill
length-digest t = refl

abbrev login : AuditRecord
login = record {
  workspace_id = some "w";
  resource_type = "model";
  resource_id = "m1";
  action = "update";
  actor_user_id = "u1";
  actor_subject = none;
  actor_roles = "platform_admin" ∷ [];
  request_id = some "r1";
  status = "applied";
  failure_code = none;
  before_hash = some "h1";
  after_hash = some "h2";
  json_patch = some no_items;
  recovered = false;
  error_message = none;
}

abbrev entry_of : String → Append
entry_of id = record {
  columns = record login { resource_id = id };
  source_ip = none;
  user_agent = none;
  id = id;
  now = 10;
}

abbrev empty_chain : Chain
empty_chain = record { events = []; head = none }

abbrev chain_or : Appended → Chain
chain_or (appended c) = c
chain_or _ = empty_chain

abbrev no_refusals : Refusals
no_refusals = record { head_refused = false; flush_refused = false }

unfoldable one_event : Chain
unfolding append_audit_event digest
one_event = chain_or (append_audit_event digest no_refusals (entry_of "m1") empty_chain)

one_event-intact : verify_chain_rows digest (one_event.events) ≡ intact 1
unfolding one_event append_audit_event digest verify_chain_rows conflicts fits first
one_event-intact = refl

one_event-IsChain : IsChain digest one_event
unfolding one_event append_audit_event digest verify_chain_rows conflicts fits first
one_event-IsChain = (refl, refl, refl)

-- A changed column is found.
tampered : List ConfigAuditEvent → List ConfigAuditEvent
tampered [] = []
tampered (e ∷ es) = record e { columns = record login { actor_user_id = "u2" } } ∷ es

tampered-broken : verify_chain_rows digest (tampered (one_event.events)) ≡ broken 1 0 "m1"
unfolding one_event append_audit_event digest verify_chain_rows conflicts fits first tampered
tampered-broken = refl

verify_chain_rows-evident_example :
    SameRecords (one_event.events) (one_event.events) ⊎ Collision digest
verify_chain_rows-evident_example =
    verify_chain_rows-evident digest length-digest (one_event.events) (one_event.events)
      one_event-IsChain.0 one_event-IsChain.0 refl refl

abbrev interrupted : ConfigMutation
interrupted = record {
  id = 4;
  resource = "model:m1";
  expected_hash = "h1";
  target_hash = some "h2";
  status = "pending";
  error = none;
  workspace_id = some "w";
  action = some "update";
  actor_user_id = some "u1";
  actor_subject = none;
  actor_roles = none;
  request_id = none;
  finished_at = none;
}

abbrev after_crash : Database
after_crash = record { mutations = interrupted ∷ []; chain = one_event }

classify_applied : classify (some "h2") interrupted ≡ ("applied", none)
unfolding classify
classify_applied = refl

classify_unwritten : classify (some "h1") interrupted ≡ ("failed", some "NO_WRITE")
unfolding classify
classify_unwritten = refl

partition_model : partition "model:m:1" ≡ ("model", "m:1")
unfolding partition
partition_model = refl

abbrev restart : Surroundings
restart = record {
  now = 20;
  draw = λ m. "e9";
  load = state "h2";
  refusals = λ m. no_refusals;
  commit_refused = false;
}

abbrev is_some_result : Option (ℕ × Database) → Bool
is_some_result none = false
is_some_result (some r) = true

reconciled : is_some_result (reconcile_config_mutations digest restart after_crash) ≡ true
unfolding one_event append_audit_event digest conflicts fits first reconcile_config_mutations
    recovered_event partition classify
reconciled = refl

-- An action of 33 characters fits the mutation's row and not the event's.
abbrev long_action : Database
long_action = record after_crash {
  mutations = record interrupted { action = some "abcdefghijklmnopqrstuvwxyzabcdefg" } ∷ [];
}

long_action_raises : is_some_result (reconcile_config_mutations digest restart long_action) ≡ false
unfolding one_event append_audit_event digest conflicts fits first reconcile_config_mutations
    recovered_event partition classify
long_action_raises = refl

-- A state is a text, and its hash the text behind a letter.
abbrev texts : States
texts = record {
  State = String;
  state_hash = λ t. String.◌∷◌ "h" t;
  updated = λ now t. t;
  json_patch_diff = λ s t. no_items;
}

abbrev call : Call
call = record {
  resource_type = "model";
  resource_id = "m1";
  action = "update";
  workspace_id = some "w";
  user_id = "u1";
  subject = none;
  roles = [];
  request_id = some "r1";
  source_ip = none;
  user_agent = some "curl";
  now = 30;
  mutation_id = 5;
  event_id = "e5";
}

abbrev before_call : Database
before_call = record { mutations = []; chain = one_event }

abbrev answer : Result digest texts → Reply digest texts
answer r = r.reply

abbrev no_troubles : Troubles
no_troubles = record {
  pending_refused = false;
  finish_refused = false;
  append_refused = no_refusals;
  commit_refused = false;
}

apply_mutation_returned :
    answer (
      apply_mutation digest texts call no_troubles
        (λ t. changes "2")
        true
        (holds "1")
        (holds "1")
        (holds "1")
        before_call)
    ≡ returned "2"
unfolding one_event append_audit_event digest apply_mutation conflicts fits first
apply_mutation_returned = refl
