-- ===== src/Jobs/Commits.antt =====
-- When `JobRunner` (map-business-backend/app/workers/job_runner.py) commits what a handler has written.
use mathlib.Core.List.{◌++◌}
use map.Base.{
  ℕ, String, Bool, true, false, ◌≡◌, ◌≢◌, refl, sym, ap, ◌∙◌, subst, Option, none, some, List, [],
  ◌∷◌, Bool-cases, inl, inr, if◌then◌else◌,
}
use map.Jobs.{Job, running, succeeded, Lease, find, any_row, fence, finished, complete, heartbeat}
use map.Jobs.Rows.{Unique}
use map.Jobs.Fence.{HeldRow, fenced-row, any_row_iff}
use map.Jobs.Evolution.{Call, heartbeats, completes, fails, after, run}
use map.Jobs.History.{run-Unique, run-RowAfter}
use map.Jobs.Runner.{
  Ended, returned, effect_uncertain, job_terminal, raised, stopped_failure, uncertain_failure,
  terminal_failure, handler_failure, Beat, Execution, Database, heartbeat_loop, fail_job,
  complete_job, finish, execute_job,
}

-- The row of the job as an execution that commits leaves it.
abbrev pub Succeeded : ℕ → Option String → List Job → Type 0
Succeeded i result js =
    (j : Job) × (find i js ≡ some j) × (j.status ≡ succeeded) × (j.result_json ≡ result)

-- What an execution does to the rows, when the queue holds `js` before its last statement.
pub data Outcome (l : Lease) (x : Execution) (js : List Job) (db db' : Database) : Type 0 where
  rolled_back : db'.rows ≡ db.rows → Outcome l x js db db'
  committed :
      (r : String)
      → x.ended ≡ returned (some r)
      → x.stop ≡ false
      → HeldRow l x.began js
      → db'.rows ≡ db.rows ++ x.writes
      → Succeeded l.job_id (some r) db'.jobs
      → Outcome l x js db db'

run-append : (cs ds : List Call) (js : List Job) → run (cs ++ ds) js ≡ run ds (run cs js)
unfolding run
run-append [] ds js = refl
run-append (c ∷ cs) ds js = run-append cs ds (after c js)

-- The heartbeats are calls on the queue among the others'.
heartbeat_loop-run :
    (l : Lease) (n : ℕ) (beats : List Beat) (js : List Job)
    → (cs : List Call) × ((heartbeat_loop l n beats js).0 ≡ run cs js)
unfolding heartbeat_loop run
heartbeat_loop-run l n [] js = ([], refl)
heartbeat_loop-run l n (b ∷ beats) js =
    let js' : List Job = (heartbeat l n b.db_now (run b.before js)).0 in
    let once : List Call = b.before ++ heartbeats l n b.db_now ∷ [] in
    let e : run once js ≡ js' = run-append b.before (heartbeats l n b.db_now ∷ []) js in
    let (cs, e') = heartbeat_loop-run l n beats js' in
    elim (Bool-cases b.raises) [
      | inl h ↦ (b.before, rw h refl)
      | inr h ↦ elim (Bool-cases (heartbeat l n b.db_now (run b.before js)).1) [
        | inl k ↦ (once ++ cs, rw (h, k) (e' ∙ ap (run cs) (sym e) ∙ sym (run-append once cs js)))
        | inr k ↦ (once, rw (h, k) (sym e))
      ]
    ]

module _ (l : Lease) (x : Execution) where
  complete_job-Outcome :
      (r : String) (db : Database)
      → x.ended ≡ returned (some r)
      → x.stop ≡ false
      → Unique db.jobs
      → Outcome l x db.jobs db (complete_job l x (some r) db)
  unfolding complete_job complete finished
  complete_job-Outcome r db e s u = elim (Bool-cases (any_row (fence l x.began) db.jobs)) [
    | inl h ↦
        let (j, here, f, there) =
          fenced-row l x.began (finished (some r) x.now) (λ k. refl) db.jobs u h in
        rw h (
          committed r e s ((any_row_iff l x.began db.jobs u).0 h) refl
            (finished (some r) x.now j, there, refl, refl))
    | inr h ↦ rw h (rolled_back refl)
  ]

  finish-Outcome :
      (lost : Bool) (e : Ended) (db : Database)
      → x.ended ≡ e
      → Unique db.jobs
      → Outcome l x db.jobs db (finish l x lost e db)
  unfolding finish fail_job
  finish-Outcome lost (effect_uncertain m) db h u = rolled_back refl
  finish-Outcome lost (job_terminal c m) db h u = rolled_back refl
  finish-Outcome lost (raised m) db h u = rolled_back refl
  finish-Outcome lost (returned none) db h u = elim (Bool-cases x.stop) [
    | inl s ↦ rw s (rolled_back refl)
    | inr s ↦ rw s (rolled_back refl)
  ]
  finish-Outcome true (returned (some r)) db h u = elim (Bool-cases x.stop) [
    | inl s ↦ rw s (rolled_back refl)
    | inr s ↦ rw s (rolled_back refl)
  ]
  finish-Outcome false (returned (some r)) db h u = go x.stop refl
    where
      go :
          (b : Bool)
          → x.stop ≡ b
          → Outcome l x db.jobs db
              (if b then fail_job l x stopped_failure db else complete_job l x (some r) db)
      go true s = rolled_back refl
      go false s = complete_job-Outcome r db h s u

  -- The last statement of an execution is a call on the queue, or there is none.
  abbrev Runs : List Job → Database → Type 0
  Runs js db = (cs : List Call) × (db.jobs ≡ run cs js)

  complete_job-run : (o : Option String) (db : Database) → Runs db.jobs (complete_job l x o db)
  unfolding complete_job run
  complete_job-run o db = elim (Bool-cases (complete l o x.began x.now db.jobs).1) [
    | inl e ↦ rw e (completes l o x.began x.now ∷ [], refl)
    | inr e ↦ rw e ([], refl)
  ]

  finish-run : (lost : Bool) (e : Ended) (db : Database) → Runs db.jobs (finish l x lost e db)
  unfolding finish fail_job run
  finish-run lost (effect_uncertain m) db =
      (fails l (uncertain_failure m) x.db_now x.now ∷ [], refl)
  finish-run lost (job_terminal c m) db = (fails l (terminal_failure c m) x.db_now x.now ∷ [], refl)
  finish-run lost (raised m) db = (fails l (handler_failure m) x.db_now x.now ∷ [], refl)
  finish-run lost (returned o) db = go x.stop o
    where
      go :
          (b : Bool) (o : Option String)
          → Runs db.jobs (
              if b then fail_job l x stopped_failure db else elim o [
                | none ↦ db
                | some r ↦ if lost then db else complete_job l x (some r) db
              ])
      go true o = (fails l stopped_failure x.db_now x.now ∷ [], refl)
      go false none = ([], refl)
      go false (some r) = elim (Bool-cases lost) [
        | inl k ↦ rw k ([], refl)
        | inr k ↦ rw k (complete_job-run (some r) db)
      ]

  -- The queue before the last statement of an execution.
  abbrev pub before_last : ℕ → Database → List Job
  before_last n db = run x.before (heartbeat_loop l n x.beats db.jobs).0

  before_last-run : (n : ℕ) (db : Database) → (cs : List Call) × (before_last n db ≡ run cs db.jobs)
  before_last-run n db =
      let (cs, e) = heartbeat_loop-run l n x.beats db.jobs in
      (cs ++ x.before, ap (run x.before) e ∙ sym (run-append cs x.before db.jobs))

  before_last-Unique : (n : ℕ) (db : Database) → Unique db.jobs → Unique (before_last n db)
  before_last-Unique n db u =
      let (cs, e) = before_last-run n db in
      subst (λ js. Unique js) (sym e) (run-Unique cs db.jobs u)

  -- On a table with distinct primary keys, an execution either leaves the handlers' rows alone, or it adds the
  -- handler's writes at once; it does so only when the handler returned a result, the worker was not stopped and
  -- the row at the last statement still carries the lease, with an expiry not before the time at which the handler's
  -- transaction began (the lease may have run out since), and then the job has succeeded with that result.
  pub execute_job-Outcome :
      (n : ℕ) (db : Database)
      → Unique db.jobs
      → Outcome l x (before_last n db) db (execute_job l n x db)
  unfolding execute_job
  execute_job-Outcome n db u = again (
      finish-Outcome (heartbeat_loop l n x.beats db.jobs).1 x.ended
        (record db { jobs = before_last n db }) refl (before_last-Unique n db u))
    where
      again :
          {db' : Database}
          → Outcome l x (before_last n db) (record db { jobs = before_last n db }) db'
          → Outcome l x (before_last n db) db db'
      again (rolled_back e) = rolled_back e
      again (committed r e s h w j) = committed r e s h w j

  execute_job-Unique : (n : ℕ) (db : Database) → Unique db.jobs → Unique (execute_job l n x db).jobs
  unfolding execute_job
  execute_job-Unique n db u =
      let (cs, e) =
        finish-run (heartbeat_loop l n x.beats db.jobs).1 x.ended
          (record db { jobs = before_last n db }) in
      subst (λ js. Unique js) (sym e) (run-Unique cs (before_last n db) (before_last-Unique n db u))

-- A job that has succeeded is held by nobody, after any calls.
succeeded_not-Held :
    (l : Lease) (now : ℕ) (cs : List Call) (js : List Job) (j : Job)
    → Unique js
    → find l.job_id js ≡ some j
    → j.status ≡ succeeded
    → HeldRow l now (run cs js)
    → ⊥
succeeded_not-Held l now cs js j u here done (k, there, held) =
    let (y, at, evolves) = run-RowAfter cs js u l.job_id j here in
    let p : ◌≡◌ {A = Option Job} (some k) (some y) = sym there ∙ at in
    let busy : k.status ≡ running = held.is_running in
    elim (evolves.terminal_stays (rw done refl)) [
      | inl stays ↦ absurd (cc)
      | inr stays ↦ absurd (cc)
    ]

-- On a table with distinct primary keys: once an execution has committed its handler's writes, no later
-- execution of the same job, under any lease, commits any, after any calls on the queue.
pub commits_once :
    (l l' : Lease) (x x' : Execution) (n n' : ℕ) (db : Database) (cs : List Call)
    → Unique db.jobs
    → (execute_job l n x db).rows ≢ db.rows
    → l'.job_id ≡ l.job_id
    → (let db' = record (execute_job l n x db) { jobs = run cs (execute_job l n x db).jobs } in
        (execute_job l' n' x' db').rows ≡ db'.rows)
commits_once l l' x x' n n' db cs u wrote same =
    let u' : Unique (execute_job l n x db).jobs = execute_job-Unique l x n db u in
    let db' : Database = record (execute_job l n x db) {
      jobs = run cs (execute_job l n x db).jobs;
    } in
    elim (execute_job-Outcome l x n db u) [
      | rolled_back e ↦ absurd (wrote e)
      | committed r a b c d (j, here, done, res) ↦
          elim (execute_job-Outcome l' x' n' db' (run-Unique cs _ u')) [
            | rolled_back e ↦ e
            | committed r' a' b' held d' s' ↦
                let (cs', e') = before_last-run l' x' n' db' in
                absurd (
                  succeeded_not-Held l' x'.began (cs ++ cs') (execute_job l n x db).jobs j u'
                    (rw same here) done
                    (subst (λ js. HeldRow l' x'.began js)
                      (e' ∙ sym (run-append cs cs' (execute_job l n x db).jobs)) held))
          ]
    ]
