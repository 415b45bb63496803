-- ===== src/Jobs/Examples.antt =====
-- The theorems on jobs.py at concrete tables, and runs of its operations.
use map.Base.{
  Option, Bool, false, ap, ◌+◌, String, sym, ◌∙◌, ◌*◌, ◌<◌, ℕ, true, ◌≡◌, refl, ◌≢◌, none, some,
  List, [], ◌∷◌, arith,
}
use map.Jobs.{
  stopped, succeeded, cancelled, JobStatus, cancel, seconds, Job, queued, running, ClaimArgs, Lease,
  Failure, find, claim_next, heartbeat, complete, fail, take_lease,
}
use map.Jobs.Rows.{Unique}
use map.Jobs.Claim.{Claimed, claim_next-Claimed}
use map.Jobs.Retry.{FailedRow, fail-row}
use map.Jobs.Evolution.{claims, cancels, run}
use map.Jobs.History.{superseded_refused}
use map.Jobs.Runner.{
  Execution, returned, Database, execute_job, heartbeat_interval, Interval, finite, not_a_number,
  steps, heartbeat_delay,
}
use map.Envelope.{pos, negsuc}
use mathlib.Core.Bool.{false≢true}
use map.Jobs.Commits.{Outcome, before_last, execute_job-Outcome, commits_once}
use map.Jobs.Heartbeat.{heartbeat_interval_waits}
use map.Jobs.Exclusive.{claim_next_exclusive}

abbrev plain : Job
plain = record {
  id = 1;
  workspace_id = 9;
  job_type = "run";
  status = queued;
  payload_json = none;
  result_json = none;
  idempotency_key = some "k1";
  priority = 5;
  attempt = 0;
  max_attempts = 3;
  lease_owner = none;
  lease_expires_at = none;
  next_run_at = none;
  created_at = 10;
  started_at = none;
  finished_at = none;
  error_code = none;
  error_message = none;
}

-- A job that worker 7 holds under attempt 1 until time 100.
abbrev held : Job
held = record plain {
  id = 2;
  status = running;
  attempt = 1;
  lease_owner = some 7;
  lease_expires_at = some 100;
  started_at = some 40;
}

abbrev urgent : Job
urgent = record plain { id = 3; priority = 8; created_at = 20 }

abbrev table : List Job
table = plain ∷ held ∷ urgent ∷ []

table-Unique : Unique table
table-Unique = omega arith

abbrev claim_at : ℕ → ℕ → ClaimArgs
claim_at worker t = record {
  worker_id = worker;
  lease_seconds = 60;
  job_types = [];
  locked = λ _. false;
  db_now = t;
  now = t;
}

abbrev lease7 : Lease
lease7 = record { job_id = 2; owner = 7; attempt = 1 }

abbrev broken : Failure
broken = record { error_code = "HANDLER_ERROR"; error_message = "boom"; retryable = true }

claim_next-Claimed_example : Claimed (claim_at 8 50) table (claim_next (claim_at 8 50) table)
claim_next-Claimed_example = claim_next-Claimed (claim_at 8 50) table table-Unique

fail_accepted : (fail lease7 broken 90 95 table).1 ≡ true
unfolding fail
fail_accepted = refl

fail-row_example :
    (j j' : Job) × (find 2 table ≡ some j)
    × (find 2 (fail lease7 broken 90 95 table).0 ≡ some j')
    × FailedRow broken 95 j j'
fail-row_example = fail-row lease7 broken 90 95 table table-Unique fail_accepted

-- At time 150 the lease of worker 7 has run out, and worker 8 takes the job over.
abbrev taken : List Job
taken = record held { attempt = 2; lease_owner = some 8; lease_expires_at = some 60_000_150 } ∷ []

reclaimed : (claim_next (claim_at 8 150) (held ∷ [])).0 ≡ taken
unfolding claim_next take_lease
reclaimed = refl

taken_found :
    find 2 taken
    ≡ some (record held { attempt = 2; lease_owner = some 8; lease_expires_at = some 60_000_150 })
unfolding find
taken_found = refl

superseded_refused_example :
    complete lease7 none 155 155 (run (cancels 1 152 taken ∷ []) taken)
    ≡ (run (cancels 1 152 taken ∷ []) taken, false)
superseded_refused_example =
    (superseded_refused lease7 taken _ (tt, tt) taken_found (omega arith) (cancels 1 152 taken ∷ [])
      none broken 60 155 155).1

-- The job of the highest priority is claimed first, and then the job that waits.
abbrev urgent_claimed : Job
urgent_claimed = record urgent {
  status = running;
  attempt = 1;
  lease_owner = some 8;
  lease_expires_at = some 60_000_050;
  started_at = some 50;
}

abbrev plain_claimed : Job
plain_claimed = record plain {
  status = running;
  attempt = 1;
  lease_owner = some 9;
  lease_expires_at = some 60_000_060;
  started_at = some 60;
}

abbrev pair : List Job
pair = plain ∷ urgent ∷ []

first_claim : claim_next (claim_at 8 50) pair ≡ (plain ∷ urgent_claimed ∷ [], some urgent_claimed)
unfolding claim_next take_lease
first_claim = refl

second_claim :
    claim_next (claim_at 9 60) (plain ∷ urgent_claimed ∷ [])
    ≡ (plain_claimed ∷ urgent_claimed ∷ [], some plain_claimed)
unfolding claim_next take_lease
second_claim = refl

claim_next_exclusive_example : ◌≢◌ {A = ℕ} 1 3
claim_next_exclusive_example =
    claim_next_exclusive (claim_at 8 50) (claim_at 9 60) pair (plain ∷ urgent_claimed ∷ [])
      (plain_claimed ∷ urgent_claimed ∷ []) urgent_claimed plain_claimed (omega arith) first_claim
      second_claim (omega arith)

-- A worker that holds the job commits what its handler wrote; afterwards another execution of the same job does not.
abbrev execution : Execution
execution = record {
  beats = record { before = []; db_now = 90; raises = false } ∷ [];
  stop = false;
  ended = returned (some "done");
  writes = "row" ∷ [];
  before = cancels 1 95 (held ∷ []) ∷ [];
  began = 85;
  db_now = 100;
  now = 100;
}

abbrev database : Database
database = record { jobs = held ∷ []; rows = [] }

execution_wrote : (execute_job lease7 60 execution database).rows ≡ "row" ∷ []
unfolding execute_job heartbeat run complete cancel
execution_wrote = refl

execute_job-Outcome_example :
    Outcome lease7 execution
      (before_last lease7 execution 60 database)
      database
      (execute_job lease7 60 execution database)
execute_job-Outcome_example = execute_job-Outcome lease7 execution 60 database (tt, tt)

abbrev lease8 : Lease
lease8 = record { job_id = 2; owner = 8; attempt = 2 }

not_empty : (execute_job lease7 60 execution database).rows ≢ []
not_empty h = let e : ◌≡◌ {A = List String} ("row" ∷ []) [] = sym execution_wrote ∙ h in cc

abbrev is_nan : Interval → Bool
is_nan not_a_number = true
is_nan _ = false

commits_once_example :
    (let db' = record (execute_job lease7 60 execution database) {
      jobs = run (claims (claim_at 8 150) ∷ []) (execute_job lease7 60 execution database).jobs;
    } in
      (execute_job lease8 60 execution db').rows ≡ db'.rows)
commits_once_example =
    commits_once lease7 lease8 execution execution 60 60 database (claims (claim_at 8 150) ∷ [])
      (tt, tt) not_empty refl

-- 19 seconds under a lease of 60, with the longest first wait.
heartbeat_interval_waits_example :
    (n : ℕ) × (finite (pos 19_000_000) ≡ finite (pos n))
    × (0 < n)
    × (heartbeat_delay n 9_007_199_254_740_991 + heartbeat_delay n 0 < seconds 60 * (5 * steps))
heartbeat_interval_waits_example =
    heartbeat_interval_waits 60 (some (finite (pos 19_000_000))) (finite (pos 19_000_000))
      9_007_199_254_740_991 0 (omega arith) (unfold heartbeat_interval in refl)
      (λ h. false≢true (ap is_nan h)) (omega arith) (omega arith)

negative_refused : heartbeat_interval 60 (some (finite (negsuc 4))) ≡ none
unfolding heartbeat_interval
negative_refused = refl

nan_accepted : heartbeat_interval 60 (some not_a_number) ≡ some not_a_number
unfolding heartbeat_interval
nan_accepted = refl

-- A cancel that has read the job while it ran writes over its success.
abbrev done : Job
done = record held { status = succeeded; lease_owner = none; lease_expires_at = none }

status_of : Option Job → Option JobStatus
status_of none = none
status_of (some j) = some j.status

stale_cancel :
    status_of (find 2 (run (cancels 2 160 (held ∷ []) ∷ []) (done ∷ []))) ≡ some cancelled
unfolding find run cancel stopped status_of
stale_cancel = refl
