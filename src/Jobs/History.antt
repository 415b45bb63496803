-- ===== src/Jobs/History.antt =====
-- Histories of the calls of map-business-backend/app/repositories/jobs.py, by any workers in any order.
use map.Jobs.Evolution.{
  Call, claims, heartbeats, completes, fails, cancels, after, run, Evolves-refl, Evolves-trans,
  RowAfter, after-RowAfter,
}
use map.Base.{
  ℕ, ◌+◌, ◌<◌, true, false, ◌≡◌, refl, ap, inl, inr, Option, none, some, List, [], ◌∷◌, arith, ◌==◌,
  Bool-cases, String,
}
use map.Jobs.{
  Job, ClaimArgs, Lease, Failure, any_row, find, is_open, fence, renewed, finished, released,
  stopped, take_lease, claim_next, heartbeat, complete, fail, cancel, cancel_row, seconds,
}
use map.Jobs.Rows.{Unique, Unique-update}
use map.Jobs.Claim.{Claimed, nothing, took, leased, claim_next-Claimed}
use map.Jobs.Fence.{any_row_iff, refused_unchanged}
use map.Jobs.Retry.{fail_held, settled-id}

cancel_row-Unique :
    (now : ℕ) (js : List Job) (o : Option Job) → Unique js → Unique (cancel_row now o js).0
unfolding cancel_row
cancel_row-Unique now js none u = u
cancel_row-Unique now js (some x) u = elim (Bool-cases (is_open x.status)) [
  | inl o ↦
      rw o (Unique-update (λ y. y.id == x.id) (stopped now x) (λ y. unfold stopped in refl) js u)
  | inr o ↦ rw o u
]

pub claims-Unique :
    (c : ClaimArgs) (js : List Job)
    → Unique js
    → (r : List Job × Option Job) → Claimed c js r
    → Unique r.0
claims-Unique c js u r (nothing a b e) = rw e u
claims-Unique c js u r (took k there h e) =
    rw e (Unique-update (λ y. y.id == k.id) (leased c) (λ y. unfold take_lease in refl) js u)

fail-Unique :
    (l : Lease) (e : Failure) (db_now now : ℕ) (js : List Job)
    → Unique js
    → Unique (fail l e db_now now js).0
fail-Unique l e db_now now js u = elim (Bool-cases (any_row (fence l db_now) js)) [
  | inr r ↦ rw ((refused_unchanged l none e 0 db_now now js r).2) u
  | inl a ↦
      let (k, _, _, _, eq) = fail_held l e db_now now js u a in
      rw eq (
        Unique-update (λ y. y.id == l.job_id) _ (settled-id e.retryable _ now) _
          (Unique-update (fence l db_now) (released e.error_code e.error_message)
            (λ x. unfold released in refl) js u))
]

after-Unique : (c : Call) (js : List Job) → Unique js → Unique (after c js)
unfolding after heartbeat complete cancel
after-Unique (claims c) js u = claims-Unique c js u (claim_next c js) (claim_next-Claimed c js u)
after-Unique (heartbeats l n t) js u =
    Unique-update (fence l t) (renewed (t + seconds n)) (λ x. unfold renewed in refl) js u
after-Unique (completes l r t now) js u =
    Unique-update (fence l t) (finished r now) (λ x. unfold finished in refl) js u
after-Unique (fails l f t now) js u = fail-Unique l f t now js u
after-Unique (cancels k now read) js u = cancel_row-Unique now js (find k read) u

pub run-Unique : (cs : List Call) (js : List Job) → Unique js → Unique (run cs js)
unfolding run
run-Unique [] js u = u
run-Unique (c ∷ cs) js u = run-Unique cs (after c js) (after-Unique c js u)

pub run-RowAfter :
    (cs : List Call) (js : List Job)
    → Unique js
    → (i : ℕ) (j : Job) → find i js ≡ some j
    → RowAfter i j (run cs js)
unfolding run
run-RowAfter [] js u i j e = (j, e, Evolves-refl j)
run-RowAfter (c ∷ cs) js u i j e =
    let (k, here, step) = after-RowAfter c js u i j e in
    let (k', here', rest) = run-RowAfter cs (after c js) (after-Unique c js u) i k here in
    (k', here', Evolves-trans step rest)

-- On a table with distinct primary keys, every write under a superseded lease, after any history of calls, is
-- refused and changes nothing: once the row carries a later attempt than the lease's, `heartbeat`, `complete`
-- and `fail` return false and leave the table as it is.
pub superseded_refused :
    (l : Lease) (js : List Job) (j : Job)
    → Unique js
    → find l.job_id js ≡ some j
    → l.attempt < j.attempt
    → (cs : List Call) (result : Option String) (e : Failure) (lease_seconds db_now now : ℕ)
    → let js' = run cs js in
      (heartbeat l lease_seconds db_now js' ≡ (js', false))
      × (complete l result db_now now js' ≡ (js', false))
      × (fail l e db_now now js' ≡ (js', false))
superseded_refused l js j u here older cs result e lease_seconds db_now now =
    refused_unchanged l result e lease_seconds db_now now (run cs js)
      (elim (Bool-cases (any_row (fence l db_now) (run cs js))) [
        | inr r ↦ r
        | inl a ↦ absurd (stale a)
      ])
  where
    stale : any_row (fence l db_now) (run cs js) ≡ true → ⊥
    stale a =
        let (k, at, holds) = (any_row_iff l db_now (run cs js) (run-Unique cs js u)).0 a in
        let (k', at', grown) = run-RowAfter cs js u l.job_id j here in
        let same : k ≡ k' = ground arith in
        ground (arith, ap (λ (x : Job). x.attempt) same, holds.attempt, grown.attempt_grows)
