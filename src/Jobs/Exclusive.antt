-- ===== src/Jobs/Exclusive.antt =====
-- Two claims of jobs.py, one after the other.
use map.Base.{
  ◌+◌, ◌≤◌, ◌≡◌, refl, sym, ◌∙◌, ap, subst, ◌≢◌, inl, inr, Option, none, some, List, arith, ◌==◌,
}
use map.Jobs.{Job, ClaimArgs, update, find, take_lease, claim_next, seconds, claimable, reclaimable}
use map.Jobs.Rows.{Unique}
use map.Jobs.Claim.{Claimed, nothing, took, Chosen, leased, claim_next-Claimed}
use map.Jobs.Evolution.{update_key-find}
use map.Jobs.History.{claims-Unique}

-- The row of a claim, before and after.
abbrev pub TookRow : ClaimArgs → List Job → List Job → Job → Type 0
TookRow c js js' j =
    (k : Job) × (find k.id js ≡ some k)
    × Chosen c js k
    × (j ≡ leased c k)
    × (find k.id js' ≡ some j)

TookRow-Claimed :
    (c : ClaimArgs) (js js' : List Job) (j : Job) (r : List Job × Option Job)
    → Claimed c js r
    → r ≡ (js', some j)
    → TookRow c js js' j
TookRow-Claimed c js js' j r (nothing a b e) h =
    absurd (let p : ◌≡◌ {A = Option Job} none (some j) = ap (λ x. x.1) (sym e ∙ h) in cc)
TookRow-Claimed c js js' j r (took k here ch e) h =
    let both = sym e ∙ h in
    let row : leased c k ≡ j =
      (let p : ◌≡◌ {A = Option Job} (some (leased c k)) (some j) = ap (λ x. x.1) both in cc) in
    (
      k,
      here,
      ch,
      sym row,
      subst (λ t. find k.id t ≡ some j) (ap (λ x. x.0) both)
          (subst (λ y. find k.id (update (λ x. x.id == k.id) (leased c) js) ≡ some y) row
            (update_key-find (leased c) (λ x. unfold take_lease in refl) k.id js k here)),
    )

pub claim_next-TookRow :
    (c : ClaimArgs) (js js' : List Job) (j : Job)
    → Unique js
    → claim_next c js ≡ (js', some j)
    → TookRow c js js' j
claim_next-TookRow c js js' j u h =
    TookRow-Claimed c js js' j (claim_next c js) (claim_next-Claimed c js u) h

not-Chosen :
    (c c' : ClaimArgs) (js' : List Job) (k m : Job)
    → m ≡ leased c k
    → c'.db_now ≤ c.db_now + seconds c.lease_seconds
    → Chosen c' js' m
    → ⊥
unfolding take_lease claimable reclaimable
not-Chosen c c' js' k m e t (inl (due, _)) = ground arith
not-Chosen c c' js' k m e t (inr (_, overdue, _)) = ground arith

-- On a table with distinct primary keys, a job that was claimed is not claimed again while its lease lasts: the
-- next claim, by any worker, at a time up to the end of the lease, takes another job or none.
pub claim_next_exclusive :
    (c c' : ClaimArgs) (js js' js'' : List Job) (j k : Job)
    → Unique js
    → claim_next c js ≡ (js', some j)
    → claim_next c' js' ≡ (js'', some k)
    → c'.db_now ≤ c.db_now + seconds c.lease_seconds
    → k.id ≢ j.id
unfolding take_lease
claim_next_exclusive c c' js js' js'' j k u h h' t same =
    let (a, here, ch, e, row) = claim_next-TookRow c js js' j u h in
    let u' : Unique js' =
      subst (λ x. Unique x) (ap (λ x. x.0) h)
        (claims-Unique c js u (claim_next c js) (claim_next-Claimed c js u)) in
    let (b, here', ch', e', row') = claim_next-TookRow c' js' js'' k u' h' in
    let same_row : b ≡ j = ground arith in not-Chosen c c' js' a b (same_row ∙ e) t ch'
