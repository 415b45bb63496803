-- ===== src/Jobs/Fence.antt =====
-- The fenced writes of jobs.py: `heartbeat`, `complete` and `fail` succeed exactly for the holder of a
-- live lease, and what they write.
use map.Base.{
  ℕ, ◌+◌, ◌≤◌, true, false, ◌≡◌, refl, ◌∙◌, ap, subst, ◌≢◌, ◌↔◌, inl, inr, Option, none, some, List,
  arith, Option-cases, String,
}
use map.Jobs.{
  Job, running, update, any_row, find, seconds, live_at, is_at, Lease, fence, renewed, finished,
  released, heartbeat, complete, fail, Failure,
}
use map.Jobs.Rows.{
  Unique, KeepsId, find-update, find-id, find_of_mem, any_row-mem, any_row-find, update-none,
}

-- The lease names the row that holds it: running, under this owner and attempt, not yet expired.
pub record Holds (l : Lease) (db_now : ℕ) (j : Job) : Type 0 where
  pub row : j.id ≡ l.job_id
  pub is_running : j.status ≡ running
  pub owner : j.lease_owner ≡ some l.owner
  pub attempt : j.attempt ≡ l.attempt
  pub expiry : ℕ
  pub expires : j.lease_expires_at ≡ some expiry
  pub live : db_now ≤ expiry

is_at-true : (o : Option ℕ) (n : ℕ) → is_at o n ≡ true → o ≡ some n
is_at-true none n h = cc
is_at-true (some m) n h = ap some (ground arith)

live_at-true : (o : Option ℕ) (now : ℕ) → live_at o now ≡ true → (t : ℕ) × (o ≡ some t) × (now ≤ t)
live_at-true none now h = cc
live_at-true (some t) now h = (t, refl, ground arith)

pub fence-Holds : (l : Lease) (db_now : ℕ) (j : Job) → fence l db_now j ≡ true → Holds l db_now j
unfolding fence
fence-Holds l db_now j h =
    let (t, e, le) = live_at-true j.lease_expires_at db_now (ground arith) in
    record {
      row = ground arith;
      is_running = ground arith;
      owner = is_at-true j.lease_owner l.owner (ground arith);
      attempt = ground arith;
      expiry = t;
      expires = e;
      live = le;
    }

pub Holds-fence : (l : Lease) (db_now : ℕ) (j : Job) → Holds l db_now j → fence l db_now j ≡ true
unfolding fence
Holds-fence l db_now j h = rw (h.is_running, h.owner, h.expires) (ground arith)

module _ (l : Lease) (db_now : ℕ) (f : Job → Job) (keeps : KeepsId f) (js : List Job) where
  -- A fenced UPDATE writes the row of its job only.
  pub fenced-others : (i : ℕ) → i ≢ l.job_id → find i (update (fence l db_now) f js) ≡ find i js
  unfolding fence
  fenced-others i h = elim (Option-cases (find i js)) [
    | inl e ↦ find-update (fence l db_now) f keeps i js ∙ rw e refl
    | inr (j, e) ↦ find-update (fence l db_now) f keeps i js ∙ rw e (ground (arith, find-id i js j))
  ]

  pub fenced-row :
      Unique js
      → any_row (fence l db_now) js ≡ true
      → (j : Job) × (find l.job_id js ≡ some j)
        × (fence l db_now j ≡ true)
        × (find l.job_id (update (fence l db_now) f js) ≡ some (f j))
  fenced-row u h =
      let (j, e, m) = any_row-mem (fence l db_now) js h in
      let here : find l.job_id js ≡ some j =
        subst (λ i. find i js ≡ some j) (fence-Holds l db_now j e).row (find_of_mem j js u m) in
      (j, here, e, find-update (fence l db_now) f keeps l.job_id js ∙ rw (here) (rw e refl))

-- The fenced writes succeed exactly when the table has a row that the lease holds.
abbrev pub HeldRow : Lease → ℕ → List Job → Type 0
HeldRow l db_now js = (j : Job) × (find l.job_id js ≡ some j) × Holds l db_now j

pub any_row_iff :
    (l : Lease) (db_now : ℕ) (js : List Job)
    → Unique js
    → (any_row (fence l db_now) js ≡ true) ↔ HeldRow l db_now js
any_row_iff l db_now js u = (
  λ h.
      let (j, e, m) = any_row-mem (fence l db_now) js h in
      let held = fence-Holds l db_now j e in
      (j, subst (λ i. find i js ≡ some j) held.row (find_of_mem j js u m), held),
  λ (j, e, held). any_row-find (fence l db_now) l.job_id js j e (Holds-fence l db_now j held),
)

-- `heartbeat` returns true exactly for the holder of a live lease, on a table with distinct primary keys.
pub heartbeat_iff :
    (l : Lease) (lease_seconds db_now : ℕ) (js : List Job)
    → Unique js
    → ((heartbeat l lease_seconds db_now js).1 ≡ true) ↔ HeldRow l db_now js
unfolding heartbeat
heartbeat_iff l lease_seconds db_now js u = any_row_iff l db_now js u

-- `complete` returns true exactly for the holder of a live lease, on a table with distinct primary keys.
pub complete_iff :
    (l : Lease) (result : Option String) (db_now now : ℕ) (js : List Job)
    → Unique js
    → ((complete l result db_now now js).1 ≡ true) ↔ HeldRow l db_now js
unfolding complete
complete_iff l result db_now now js u = any_row_iff l db_now js u

-- A fenced write that is refused changes no row.
pub refused_unchanged :
    (l : Lease) (result : Option String) (e : Failure) (lease_seconds db_now now : ℕ)
    (js : List Job)
    → (any_row (fence l db_now) js ≡ false)
    → (heartbeat l lease_seconds db_now js ≡ (js, false))
      × (complete l result db_now now js ≡ (js, false))
      × (fail l e db_now now js ≡ (js, false))
unfolding heartbeat complete fail
refused_unchanged l result e lease_seconds db_now now js h = (
  rw (h) (
      ap (λ x. (x, false))
        (update-none (fence l db_now) (renewed (db_now + seconds lease_seconds)) js h)),
  rw (h) (ap (λ x. (x, false)) (update-none (fence l db_now) (finished result now) js h)),
  rw (h) (
      ap (λ x. (x, false))
        (update-none (fence l db_now) (released e.error_code e.error_message) js h)),
)
