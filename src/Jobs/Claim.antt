-- ===== src/Jobs/Claim.antt =====
-- `claim_next` of jobs.py: which job it takes, what it writes, and what it leaves alone.
use map.Base.{
  ◌+◌, Bool, true, false, ◌&&◌, ◌≡◌, refl, ◌⊎◌, inl, inr, Option, none, some, List, All, ◌==◌,
}
use map.Jobs.{
  Job, ClaimArgs, update, find, before, pick, claimable, reclaimable, take_lease, seconds,
  try_claim, try_reclaim, claim_next,
}
use map.Jobs.Rows.{Unique, find_of_mem, pick-mem, pick-first, pick-none}

-- The row as the claim leaves it.
abbrev pub leased : ClaimArgs → Job → Job
leased c = take_lease c.worker_id (c.db_now + seconds c.lease_seconds) c.now

abbrev pub due : ClaimArgs → Job → Bool
due c = claimable c.job_types c.locked c.db_now

abbrev pub overdue : ClaimArgs → Job → Bool
overdue c = reclaimable c.locked c.db_now

-- What a claim of the row `j` has looked at: a due job, before which no due job stands, or, if no job is
-- due, a running one whose lease has run out, before which no other such job stands.
abbrev pub Chosen : ClaimArgs → List Job → Job → Type 0
Chosen c js j =
    ((due c j ≡ true) × All (λ k. (due c k && before k j) ≡ false) js)
    ⊎ (All (λ k. due c k ≡ false) js
        × (overdue c j ≡ true)
        × All (λ k. (overdue c k && before k j) ≡ false) js)

-- What a claim does to the table.
pub data Claimed (c : ClaimArgs) (js : List Job) (r : List Job × Option Job) : Type 0 where
  nothing :
      All (λ k. due c k ≡ false) js
      → All (λ k. overdue c k ≡ false) js
      → r ≡ (js, none)
      → Claimed c js r
  took :
      (j : Job)
      → find j.id js ≡ some j
      → Chosen c js j
      → r ≡ (update (λ k. k.id == j.id) (leased c) js, some (leased c j))
      → Claimed c js r

module _ (c : ClaimArgs) (js : List Job) (u : Unique js) where
  try_reclaim-Claimed :
      (o : Option Job)
      → pick (overdue c) js ≡ o
      → All (λ k. due c k ≡ false) js
      → Claimed c js (try_reclaim c o js)
  unfolding try_reclaim
  try_reclaim-Claimed none e a = nothing a (pick-none (overdue c) js e) refl
  try_reclaim-Claimed (some j) e a =
      let (p, m) = pick-mem (overdue c) js j e in
      took j (find_of_mem j js u m) (inr (a, p, pick-first (overdue c) js j e)) refl

  try_claim-Claimed : (o : Option Job) → pick (due c) js ≡ o → Claimed c js (try_claim c o js)
  unfolding try_claim
  try_claim-Claimed none e = try_reclaim-Claimed (pick (overdue c) js) refl (pick-none (due c) js e)
  try_claim-Claimed (some j) e =
      let (p, m) = pick-mem (due c) js j e in
      took j (find_of_mem j js u m) (inl (p, pick-first (due c) js j e)) refl

  -- On a table with distinct primary keys a claim leaves the table alone exactly when no unlocked job is due and no unlocked
  -- lease has run out; otherwise it takes a first job in the queue's order, due jobs before lapsed ones, and writes the lease
  -- to its row alone.
  pub claim_next-Claimed : Claimed c js (claim_next c js)
  unfolding claim_next
  claim_next-Claimed = try_claim-Claimed (pick (due c) js) refl
