-- ===== src/Jobs/Runner.antt =====
-- `JobRunner` of map-business-backend/app/workers/job_runner.py over the queue: one claimed job, its heartbeats, the handler, and the write
-- that ends it. Other workers' calls fall between its statements. A handler is what it wrote in its session and how it ended.
use Prim.Native.String.{◌++◌ as text_append}
use mathlib.Core.List.{◌++◌}
use map.Base.{
  ℕ, ◌+◌, ◌*◌, String, Bool, true, false, not, Option, none, some, List, [], ◌∷◌, leb,
  if◌then◌else◌,
}
use map.Jobs.{
  Job, ClaimArgs, Lease, Failure, claim_next, heartbeat, complete, fail, type_in, seconds,
}
use map.Jobs.Evolution.{Call, run}
use map.Effects.{clip}
use map.Envelope.{ℤ, pos, negsuc}

-- What a handler returns, or the exception that it raises.
pub data Ended : Type 0 where
  returned : Option String → Ended
  effect_uncertain : String → Ended
  job_terminal : (error_code message : String) → Ended
  raised : String → Ended

-- A tick of the heartbeat loop: the calls of others before it, the time, and whether the call raises before it has renewed the lease.
pub record Beat : Type 0 where
  pub before : List Call
  pub db_now : ℕ
  pub raises : Bool

-- One execution: the beats until the handler ends, whether the worker was told to stop by then, the handler's uncommitted writes, the
-- calls of others up to the last statement, and the clocks that it reads: `began` is what now() gives in the handler's transaction, the
-- time at which that transaction began, `db_now` what it gives in the transaction of a `fail`, which follows a rollback, and `now` is
-- the worker's clock.
pub record Execution : Type 0 where
  pub beats : List Beat
  pub stop : Bool
  pub ended : Ended
  pub writes : List String
  pub before : List Call
  pub began : ℕ
  pub db_now : ℕ
  pub now : ℕ

-- The queue, and the rows that handlers have committed.
pub record Database : Type 0 where
  pub jobs : List Job
  pub rows : List String

-- `_heartbeat_loop`, and whether it set `lease_lost`.
unfoldable pub heartbeat_loop : Lease → ℕ → List Beat → List Job → List Job × Bool
unfolding heartbeat run
heartbeat_loop l lease_seconds [] js = (js, false)
heartbeat_loop l lease_seconds (b ∷ beats) js =
    let (js', ok) = heartbeat l lease_seconds b.db_now (run b.before js) in
    let rest = heartbeat_loop l lease_seconds beats js' in
    if b.raises then (run b.before js, true) else if ok then rest else (js', true)

-- A rollback of the handler's writes, then the fenced `fail`.
unfoldable pub fail_job : Lease → Execution → Failure → Database → Database
unfolding fail
fail_job l x e db = record db { jobs = (fail l e x.db_now x.now db.jobs).0 }

-- The fenced `complete` in the handler's transaction.
unfoldable pub complete_job : Lease → Execution → Option String → Database → Database
unfolding complete
complete_job l x result db =
    let (js, ok) = complete l result x.began x.now db.jobs in
    if ok then record { jobs = js; rows = db.rows ++ x.writes } else db

-- The failures that `_execute` records. `str` of a JobTerminalError has its code in front.
abbrev pub uncertain_failure : String → Failure
uncertain_failure message = record {
  error_code = "EFFECT_UNCERTAIN";
  error_message = clip 2000 message;
  retryable = false;
}

abbrev pub terminal_failure : String → String → Failure
terminal_failure error_code message = record {
  error_code = error_code;
  error_message = clip 2000 (text_append error_code (text_append ": " message));
  retryable = false;
}

abbrev pub handler_failure : String → Failure
handler_failure message = record {
  error_code = "HANDLER_ERROR";
  error_message = clip 2000 message;
  retryable = true;
}

abbrev pub stopped_failure : Failure
stopped_failure = record {
  error_code = "WORKER_STOPPED";
  error_message = "worker stopped before the job finished";
  retryable = true;
}

-- What `_execute` does when the handler has ended.
unfoldable pub finish : Lease → Execution → Bool → Ended → Database → Database
unfolding fail_job complete_job
finish l x lease_lost (effect_uncertain message) db = fail_job l x (uncertain_failure message) db
finish l x lease_lost (job_terminal error_code message) db =
    fail_job l x (terminal_failure error_code message) db
finish l x lease_lost (raised message) db = fail_job l x (handler_failure message) db
finish l x lease_lost (returned result) db =
    if x.stop then fail_job l x stopped_failure db else elim result [
      | none ↦ db
      | some r ↦ if lease_lost then db else complete_job l x (some r) db
    ]

-- `_execute`
unfoldable pub execute_job : Lease → ℕ → Execution → Database → Database
unfolding heartbeat_loop finish run
execute_job l lease_seconds x db =
    let (js, lease_lost) = heartbeat_loop l lease_seconds x.beats db.jobs in
    finish l x lease_lost x.ended (record db { jobs = run x.before js })

pub record Worker : Type 0 where
  pub worker_id : ℕ
  pub lease_seconds : ℕ
  pub handlers : List String

abbrev pub lease_of : Worker → Job → Lease
lease_of w j = record { job_id = j.id; owner = w.worker_id; attempt = j.attempt }

abbrev pub claim_args : Worker → (ℕ → Bool) → ℕ → ℕ → ClaimArgs
claim_args w locked db_now now = record {
  worker_id = w.worker_id;
  lease_seconds = w.lease_seconds;
  job_types = [];
  locked = locked;
  db_now = db_now;
  now = now;
}

-- The claimed job: fail it in the claiming transaction, or execute it.
unfoldable pub run_claimed : Worker → ℕ → Execution → Database → Option Job → Database × Bool
unfolding type_in execute_job fail
run_claimed w db_now x db none = (db, false)
run_claimed w db_now x db (some j) =
    if not (type_in j.job_type w.handlers)
    then (
      record db {
        jobs =
            (fail (lease_of w j)
              (record {
                error_code = "UNKNOWN_JOB_TYPE";
                error_message = text_append "no handler registered for " j.job_type;
                retryable = false;
              })
              db_now x.now db.jobs).0;
      },
      true,
    )
    else (execute_job (lease_of w j) w.lease_seconds x db, true)

-- `run_once`
unfoldable pub run_once : Worker → (ℕ → Bool) → ℕ → ℕ → Execution → Database → Database × Bool
unfolding claim_next run_claimed
run_once w locked db_now now x db =
    let (js, o) = claim_next (claim_args w locked db_now now) db.jobs in
    run_claimed w db_now x (record db { jobs = js }) o

-- A float number of seconds, in microseconds where it is finite.
pub data Interval : Type 0 where
  finite : ℤ → Interval
  infinity minus_infinity not_a_number : Interval

-- The heartbeat interval that `__init__` settles; `none` is the ValueError. Every comparison with NaN is false.
unfoldable pub heartbeat_interval : ℕ → Option Interval → Option Interval
heartbeat_interval lease_seconds none = some (
    finite
      (pos (if leb 200_000 (lease_seconds * 250_000) then lease_seconds * 250_000 else 200_000)))
heartbeat_interval lease_seconds (some not_a_number) = some not_a_number
heartbeat_interval lease_seconds (some infinity) = none
heartbeat_interval lease_seconds (some minus_infinity) = none
heartbeat_interval lease_seconds (some (finite (negsuc n))) = none
heartbeat_interval lease_seconds (some (finite (pos n))) =
    if leb n 0
    then none
    else if leb (seconds lease_seconds) (n * 3)
    then none
    else some (finite (pos n))

-- The steps of `random.random()` from 0 to 1.
abbrev pub steps : ℕ
steps = 9_007_199_254_740_992

-- `base * (0.8 + random.random() * 0.4)` in microseconds, times 5 * steps, where random() gives r / steps.
unfoldable pub heartbeat_delay : ℕ → ℕ → ℕ
heartbeat_delay base r = base * (4 * steps + 2 * r)
