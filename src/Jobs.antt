-- ===== src/Jobs.antt =====
-- map-business-backend/app/repositories/jobs.py and the table of app/db/models/job.py: the durable job
-- queue with its leases. A table is the list of its rows. Ids and worker ids, which are only compared,
-- are numbers; times are microseconds; `priority`, a signed 32-bit column that is only compared, is
-- given plus 2^31. Every call takes the clocks that it reads: `db_now` is `now()` of the database,
-- `now` is `_utcnow()` of the worker.
pub mod Rows
pub mod Claim
pub mod Fence
pub mod Retry
pub mod Evolution
pub mod History
pub mod Exclusive
pub mod Runner
pub mod Commits
pub mod Heartbeat
pub mod Examples
use map.Base.{
  ℕ, ◌+◌, ◌*◌, ◌^◌, String, Bool, true, false, not, ◌&&◌, ◌||◌, Option, none, some, List, [], ◌∷◌,
  str_eq, ltb, leb, ◌==◌, if◌then◌else◌,
}

pub data JobStatus : Type 0 where
  queued running succeeded failed cancelled : JobStatus

pub record Job : Type 0 where
  pub id : ℕ
  pub workspace_id : ℕ
  pub job_type : String
  pub status : JobStatus
  pub payload_json : Option String
  pub result_json : Option String
  pub idempotency_key : Option String
  pub priority : ℕ
  pub attempt : ℕ
  pub max_attempts : ℕ
  pub lease_owner : Option ℕ
  pub lease_expires_at : Option ℕ
  pub next_run_at : Option ℕ
  pub created_at : ℕ
  pub started_at : Option ℕ
  pub finished_at : Option ℕ
  pub error_code : Option String
  pub error_message : Option String

-- `timedelta(seconds=n)`
abbrev pub seconds : ℕ → ℕ
seconds n = n * 1_000_000

abbrev pub is_queued : JobStatus → Bool
is_queued queued = true
is_queued _ = false

abbrev pub is_running : JobStatus → Bool
is_running running = true
is_running _ = false

-- SQL: a comparison with NULL holds of no row.
abbrev pub is_at : Option ℕ → ℕ → Bool
is_at none n = false
is_at (some m) n = m == n

abbrev pub live_at : Option ℕ → ℕ → Bool
live_at none now = false
live_at (some t) now = leb now t

abbrev pub expired_at : Option ℕ → ℕ → Bool
expired_at none now = false
expired_at (some t) now = ltb t now

abbrev pub due_at : Option ℕ → ℕ → Bool
due_at none now = true
due_at (some t) now = leb t now

-- `UPDATE ... SET f WHERE p`, its `rowcount`, and the row with a given primary key.
pub update : (Job → Bool) → (Job → Job) → List Job → List Job
update p f [] = []
update p f (j ∷ js) = (if p j then f j else j) ∷ update p f js

pub any_row : (Job → Bool) → List Job → Bool
any_row p [] = false
any_row p (j ∷ js) = p j || any_row p js

pub find : ℕ → List Job → Option Job
find i [] = none
find i (j ∷ js) = if j.id == i then some j else find i js

-- `ORDER BY priority DESC, created_at ASC`: does `a` stand before `b`?
abbrev pub before : Job → Job → Bool
before a b =
    ltb b.priority a.priority || (a.priority == b.priority && ltb a.created_at b.created_at)

-- `SELECT ... WHERE p ORDER BY ... LIMIT 1`. Of rows that tie the first of the table is taken.
abbrev pub best : Job → Option Job → Option Job
best j none = some j
best j (some k) = if before k j then some k else some j

pub pick : (Job → Bool) → List Job → Option Job
pick p [] = none
pick p (j ∷ js) = let rest = pick p js in if p j then best j rest else rest

pub type_in : String → List String → Bool
type_in t [] = false
type_in t (x ∷ xs) = str_eq x t || type_in t xs

-- `if job_types:`, the filter is added for a list that is not empty.
pub type_wanted : List String → String → Bool
unfolding type_in
type_wanted [] t = true
type_wanted (x ∷ xs) t = type_in t (x ∷ xs)

-- The two selections of `claim_next`. `locked` tells the rows that other transactions have locked,
-- which SKIP LOCKED passes over.
pub claimable : List String → (ℕ → Bool) → ℕ → Job → Bool
unfolding type_wanted
claimable job_types locked db_now j =
    is_queued j.status
    && (due_at j.next_run_at db_now && (type_wanted job_types j.job_type && not (locked j.id)))

pub reclaimable : (ℕ → Bool) → ℕ → Job → Bool
reclaimable locked db_now j =
    is_running j.status && (expired_at j.lease_expires_at db_now && not (locked j.id))

abbrev pub or_now : Option ℕ → ℕ → Option ℕ
or_now none now = some now
or_now (some t) now = some t

pub take_lease : ℕ → ℕ → ℕ → Job → Job
take_lease worker_id lease_expires now j = record j {
  status = running;
  attempt = j.attempt + 1;
  lease_owner = some worker_id;
  lease_expires_at = some lease_expires;
  started_at = or_now j.started_at now;
}

pub record ClaimArgs : Type 0 where
  pub worker_id : ℕ
  pub lease_seconds : ℕ
  pub job_types : List String
  pub locked : ℕ → Bool
  pub db_now : ℕ
  pub now : ℕ

-- `_take_lease` on the selected object, and the flush, which writes the row of its primary key.
pub lease_row : ClaimArgs → Job → List Job → List Job × Option Job
unfolding take_lease update
lease_row c j js =
    let leased = take_lease c.worker_id (c.db_now + seconds c.lease_seconds) c.now in
    (update (λ k. k.id == j.id) leased js, some (leased j))

pub try_reclaim : ClaimArgs → Option Job → List Job → List Job × Option Job
unfolding lease_row
try_reclaim c none js = (js, none)
try_reclaim c (some j) js = lease_row c j js

pub try_claim : ClaimArgs → Option Job → List Job → List Job × Option Job
unfolding lease_row try_reclaim pick reclaimable
try_claim c none js = try_reclaim c (pick (reclaimable c.locked c.db_now) js) js
try_claim c (some j) js = lease_row c j js

pub claim_next : ClaimArgs → List Job → List Job × Option Job
unfolding try_claim pick claimable
claim_next c js = try_claim c (pick (claimable c.job_types c.locked c.db_now) js) js

-- The lease that a worker writes under: the job, its name and the attempt that it was given.
pub record Lease : Type 0 where
  pub job_id : ℕ
  pub owner : ℕ
  pub attempt : ℕ

-- The WHERE clause of `heartbeat`, `complete` and `fail`.
pub fence : Lease → ℕ → Job → Bool
fence l db_now j =
    j.id == l.job_id
    && (is_running j.status
        && (is_at j.lease_owner l.owner
            && (j.attempt == l.attempt && live_at j.lease_expires_at db_now)))

pub renewed : ℕ → Job → Job
renewed until j = record j { lease_expires_at = some until }

pub heartbeat : Lease → ℕ → ℕ → List Job → List Job × Bool
unfolding fence renewed update any_row
heartbeat l lease_seconds db_now js = (
  update (fence l db_now) (renewed (db_now + seconds lease_seconds)) js,
  any_row (fence l db_now) js,
)

pub finished : Option String → ℕ → Job → Job
finished result now j = record j {
  status = succeeded;
  result_json = result;
  finished_at = some now;
  lease_owner = none;
  lease_expires_at = none;
}

pub complete : Lease → Option String → ℕ → ℕ → List Job → List Job × Bool
unfolding fence finished update any_row
complete l result db_now now js =
    (update (fence l db_now) (finished result now) js, any_row (fence l db_now) js)

-- The first UPDATE of `fail`.
pub released : String → String → Job → Job
released error_code error_message j = record j {
  error_code = some error_code;
  error_message = some error_message;
  lease_owner = none;
  lease_expires_at = none;
  started_at = none;
}

-- `counters.max_attempts or 3`
abbrev pub or_three : ℕ → ℕ
or_three n = if n == 0 then 3 else n

pub retry_now : Bool → Job → Bool
retry_now retryable counters = retryable && ltb counters.attempt (or_three counters.max_attempts)

-- The second UPDATE of `fail`; `counters` is the row as the SELECT between them reads it.
pub settled : Bool → Job → ℕ → Job → Job
unfolding retry_now
settled retryable counters now j =
    if retry_now retryable counters
    then record j {
      status = queued;
      next_run_at = some (now + seconds (2 ^ counters.attempt));
      finished_at = none;
    }
    else record j { status = failed; next_run_at = none; finished_at = some now }

pub record Failure : Type 0 where
  pub error_code : String
  pub error_message : String
  pub retryable : Bool

-- The row that `.one()` reads is there: the UPDATE before has matched it.
pub settle : Lease → Failure → ℕ → Option Job → List Job → List Job × Bool
unfolding settled update
settle l e now none js = (js, false)
settle l e now (some counters) js =
    (update (λ j. j.id == l.job_id) (settled e.retryable counters now) js, true)

pub fail : Lease → Failure → ℕ → ℕ → List Job → List Job × Bool
unfolding fence released update any_row settle find
fail l e db_now now js =
    let js' = update (fence l db_now) (released e.error_code e.error_message) js in
    if any_row (fence l db_now) js then settle l e now (find l.job_id js') js' else (js', false)

abbrev pub is_open : JobStatus → Bool
is_open queued = true
is_open running = true
is_open _ = false

-- A column that the object has set to None: the flush writes it only where the object did not hold None already.
abbrev pub cleared : Option ℕ → Option ℕ → Option ℕ
cleared none column = column
cleared (some n) column = none

-- The row `j` after the flush of an object that was read as `read`.
pub stopped : ℕ → Job → Job → Job
stopped now read j = record j {
  status = cancelled;
  finished_at = some now;
  lease_owner = cleared read.lease_owner j.lease_owner;
  lease_expires_at = cleared read.lease_expires_at j.lease_expires_at;
}

-- The test on the object, and the UPDATE of its primary key at the flush.
pub cancel_row : ℕ → Option Job → List Job → List Job × Option Job
unfolding stopped update
cancel_row now none js = (js, none)
cancel_row now (some j) js =
    if is_open j.status
    then (update (λ k. k.id == j.id) (stopped now j) js, some (stopped now j j))
    else (js, none)

-- `session.get` reads the row without a lock; by the flush of the caller's session, others may have changed the table `read`
-- to `js`.
pub cancel : ℕ → ℕ → List Job → List Job → List Job × Option Job
unfolding cancel_row find
cancel job_id now read js = cancel_row now (find job_id read) js
