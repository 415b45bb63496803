-- ===== src/Jobs/Retry.antt =====
-- `fail` of jobs.py: the outcome of a failure that the fence accepts.
use map.Base.{
  ℕ, ◌+◌, ◌^◌, ◌≤◌, ◌<◌, Bool, true, false, ◌≡◌, refl, ◌∙◌, ap, ◌↔◌, ◌⊎◌, inl, inr, none, some,
  List, arith, ◌==◌, ==_iff, Bool-cases,
}
use map.Jobs.{
  Job, queued, failed, update, any_row, find, seconds, Lease, fence, released, settled, fail,
  settle, Failure, or_three, retry_now,
}
use map.Jobs.Rows.{Unique, find-update, find-id}
use map.Jobs.Fence.{HeldRow, fenced-row, any_row_iff}

-- A retryable failure below the limit goes back to the queue with an exponential delay; any other ends the job.
abbrev pub Requeued : Failure → ℕ → Job → Job → Type 0
Requeued e now j j' =
    (e.retryable ≡ true)
    × (j.attempt < or_three j.max_attempts)
    × (j'.status ≡ queued)
    × (j'.next_run_at ≡ some (now + seconds (2 ^ j.attempt)))
    × (j'.finished_at ≡ none)

abbrev pub Ended : Failure → ℕ → Job → Job → Type 0
Ended e now j j' =
    ((e.retryable ≡ false) ⊎ (or_three j.max_attempts ≤ j.attempt))
    × (j'.status ≡ failed)
    × (j'.next_run_at ≡ none)
    × (j'.finished_at ≡ some now)

pub record FailedRow (e : Failure) (now : ℕ) (j j' : Job) : Type 0 where
  pub attempt : j'.attempt ≡ j.attempt
  pub owner : j'.lease_owner ≡ none
  pub expires : j'.lease_expires_at ≡ none
  pub code : j'.error_code ≡ some e.error_code
  pub outcome : Requeued e now j j' ⊎ Ended e now j j'

settled-FailedRow :
    (e : Failure) (now : ℕ) (j : Job)
    → FailedRow e now j (
        settled e.retryable
          (released e.error_code e.error_message j)
          now
          (released e.error_code e.error_message j))
unfolding settled released
settled-FailedRow e now j =
    elim (Bool-cases (retry_now e.retryable (released e.error_code e.error_message j))) [
      | inl r ↦ rw r (record {
        attempt = refl;
        owner = refl;
        expires = refl;
        code = refl;
        outcome = inl (unfold retry_now released in (ground arith, ground arith, refl, refl, refl));
      })
      | inr r ↦ rw r (record {
        attempt = refl;
        owner = refl;
        expires = refl;
        code = refl;
        outcome = inr (unfold retry_now released in (ground arith, refl, refl, refl));
      })
    ]

pub settled-id : (r : Bool) (c : Job) (now : ℕ) (j : Job) → (settled r c now j).id ≡ j.id
unfolding settled
settled-id r c now j = ground arith

module _ (l : Lease) (e : Failure) (db_now now : ℕ) (js : List Job) (u : Unique js) where
  abbrev pub release : Job → Job
  release = released e.error_code e.error_message

  abbrev pub first_update : List Job
  first_update = update (fence l db_now) release js

  -- Both statements of an accepted failure.
  pub fail_held :
      any_row (fence l db_now) js ≡ true
      → (j : Job) × (find l.job_id js ≡ some j)
        × (fence l db_now j ≡ true)
        × (find l.job_id first_update ≡ some (release j))
        × (fail l e db_now now js ≡ (
          update (λ k. k.id == l.job_id) (settled e.retryable (release j) now) first_update,
          true,
        ))
  unfolding fail settle
  fail_held h =
      let (j, here, holds, there) =
        fenced-row l db_now release (λ k. unfold released in refl) js u h in
      (j, here, holds, there, rw (h, there) refl)

  pub accepted : (fail l e db_now now js).1 ≡ true → any_row (fence l db_now) js ≡ true
  unfolding fail
  accepted h = ground arith

  -- `fail` returns true exactly for the holder of a live lease.
  pub fail_iff : ((fail l e db_now now js).1 ≡ true) ↔ HeldRow l db_now js
  fail_iff = (
    λ h. (any_row_iff l db_now js u).0 (accepted h),
    λ h. ap (λ r. r.1) (fail_held ((any_row_iff l db_now js u).1 h)).4,
  )

  -- On a table with distinct primary keys, a failure that is accepted releases the lease, keeps the attempt, and
  -- requeues the job exactly if it is retryable and the attempts are not used up.
  pub fail-row :
      (fail l e db_now now js).1 ≡ true
      → (j j' : Job) × (find l.job_id js ≡ some j)
        × (find l.job_id (fail l e db_now now js).0 ≡ some j')
        × FailedRow e now j j'
  fail-row h =
      let (j, here, _, there, eq) = fail_held (accepted h) in
      let j' = settled e.retryable (release j) now (release j) in
      (
        j,
        j',
        here,
        ap (λ r. find l.job_id r.0) eq
            ∙ find-update (λ k. k.id == l.job_id) (settled e.retryable (release j) now)
                (settled-id e.retryable (release j) now) l.job_id first_update
            ∙ rw there (rw ((==_iff _ _).1 (find-id l.job_id first_update (release j) there)) refl),
        settled-FailedRow e now j,
      )
