-- ===== src/Jobs/Evolution.antt =====
-- What one call of jobs.py, whoever makes it, may do to a row.
use mathlib.Core.Bool.{false≢true}
use map.Base.{
  sym, ap, ◌⊎◌, ℕ, ◌+◌, ◌≤◌, Bool, true, false, ◌≡◌, refl, ◌∙◌, subst, ◌≢◌, inl, inr, Option, none,
  some, List, [], ◌∷◌, arith, ◌==◌, ==_iff, ℕ_discrete, Bool-cases, String,
}
use map.Jobs.{
  cancelled, Job, ClaimArgs, Lease, Failure, update, any_row, find, is_open, fence, renewed,
  finished, released, settled, stopped, take_lease, claim_next, heartbeat, complete, fail, cancel,
  cancel_row, seconds, claimable, reclaimable,
}
use map.Jobs.Rows.{Unique, KeepsId, find-update, find-id}
use map.Jobs.Claim.{Claimed, nothing, took, Chosen, leased, claim_next-Claimed}
use map.Jobs.Fence.{refused_unchanged, fenced-others}
use map.Jobs.Retry.{fail_held, settled-id}

pub data Call : Type 0 where
  claims : ClaimArgs → Call
  heartbeats : Lease → ℕ → ℕ → Call
  completes : Lease → Option String → ℕ → ℕ → Call
  fails : Lease → Failure → ℕ → ℕ → Call
  -- With the table that the `get` of the cancel has read, which may be an earlier one.
  cancels : ℕ → ℕ → List Job → Call

-- Each call is one committed transaction, but for the read of a cancel, which comes before.
unfoldable pub after : Call → List Job → List Job
after (claims c) js = (claim_next c js).0
after (heartbeats l lease_seconds db_now) js = (heartbeat l lease_seconds db_now js).0
after (completes l result db_now now) js = (complete l result db_now now js).0
after (fails l e db_now now) js = (fail l e db_now now js).0
after (cancels i now read) js = (cancel i now read js).0

unfoldable pub run : List Call → List Job → List Job
unfolding after
run [] js = js
run (c ∷ cs) js = run cs (after c js)

-- What any call may do to a row.
pub record Evolves (j j' : Job) : Type 0 where
  pub same_id : j'.id ≡ j.id
  pub attempt_grows : j.attempt ≤ j'.attempt
  pub terminal_stays : is_open j.status ≡ false → (j' ≡ j) ⊎ (j'.status ≡ cancelled)

pub Evolves-refl : (j : Job) → Evolves j j
Evolves-refl j = record {
  same_id = refl;
  attempt_grows = omega arith;
  terminal_stays = λ _. inl refl;
}

closed_trans :
    {j k l : Job}
    → is_open j.status ≡ false
    → (k ≡ j) ⊎ (k.status ≡ cancelled)
    → (is_open k.status ≡ false → (l ≡ k) ⊎ (l.status ≡ cancelled))
    → (l ≡ j) ⊎ (l.status ≡ cancelled)
closed_trans h (inl e) f = elim (f (rw e h)) [ inl d ↦ inl (d ∙ e) | inr d ↦ inr d ]
closed_trans h (inr e) f = elim (f (rw e refl)) [
  | inl d ↦ inr (ap (λ (x : Job). x.status) d ∙ e)
  | inr d ↦ inr d
]

pub Evolves-trans : {j k l : Job} → Evolves j k → Evolves k l → Evolves j l
Evolves-trans a b = record {
  same_id = b.same_id ∙ a.same_id;
  attempt_grows = omega arith;
  terminal_stays = λ h. closed_trans h (a.terminal_stays h) b.terminal_stays;
}

abbrev pub RowAfter : ℕ → Job → List Job → Type 0
RowAfter i j js = (j' : Job) × (find i js ≡ some j') × Evolves j j'

pub update-RowAfter :
    (p : Job → Bool) (f : Job → Job)
    → KeepsId f
    → (i : ℕ) (js : List Job) (j : Job) → (p j ≡ true → Evolves j (f j))
    → find i js ≡ some j
    → RowAfter i j (update p f js)
update-RowAfter p f keeps i js j h e = elim (Bool-cases (p j)) [
  | inl t ↦ (f j, find-update p f keeps i js ∙ rw e (rw t refl), h t)
  | inr t ↦ (j, find-update p f keeps i js ∙ rw e (rw t refl), Evolves-refl j)
]

Chosen-open :
    (c : ClaimArgs) (js : List Job) (j : Job) → Chosen c js j → is_open j.status ≡ false → ⊥
unfolding claimable reclaimable
Chosen-open c js j h g = ground arith

pub leased-Evolves :
    (c : ClaimArgs) (js : List Job) (j : Job) → Chosen c js j → Evolves j (leased c j)
unfolding take_lease claimable reclaimable
leased-Evolves c js j h = record {
  same_id = refl;
  attempt_grows = omega arith;
  terminal_stays = λ g. absurd (Chosen-open c js j h g);
}

module _ (c : ClaimArgs) (js : List Job) (u : Unique js) where
  pub took-RowAfter :
      (i : ℕ) (j k : Job)
      → find k.id js ≡ some k
      → Chosen c js k
      → find i js ≡ some j
      → RowAfter i j (update (λ x. x.id == k.id) (leased c) js)
  unfolding take_lease
  took-RowAfter i j k here h e =
      update-RowAfter (λ x. x.id == k.id) (leased c) (λ x. refl) i js j
        (λ t.
          let same : k ≡ j = ground (arith, find-id i js j e) in
          subst (λ x. Evolves x (leased c x)) same (leased-Evolves c js k h))
        e

module _ (l : Lease) (db_now : ℕ) where
  pub fence-open : (j : Job) → fence l db_now j ≡ true → is_open j.status ≡ true
  unfolding fence
  fence-open j h = ground arith

  closed-fence : (j : Job) → fence l db_now j ≡ true → is_open j.status ≡ false → ⊥
  closed-fence j h g = false≢true (sym g ∙ fence-open j h)

  pub renewed-Evolves :
      (until : ℕ) (j : Job) → fence l db_now j ≡ true → Evolves j (renewed until j)
  unfolding renewed
  renewed-Evolves until j h = record {
    same_id = refl;
    attempt_grows = omega arith;
    terminal_stays = λ g. absurd (closed-fence j h g);
  }

  pub finished-Evolves :
      (result : Option String) (now : ℕ) (j : Job)
      → fence l db_now j ≡ true
      → Evolves j (finished result now j)
  unfolding finished
  finished-Evolves result now j h = record {
    same_id = refl;
    attempt_grows = omega arith;
    terminal_stays = λ g. absurd (closed-fence j h g);
  }

  pub failed-Evolves :
      (e : Failure) (now : ℕ) (j c : Job)
      → fence l db_now j ≡ true
      → Evolves j (settled e.retryable c now (released e.error_code e.error_message j))
  unfolding settled released
  failed-Evolves e now j c h = record {
    same_id = ground arith;
    attempt_grows = ground arith;
    terminal_stays = λ g. absurd (closed-fence j h g);
  }

pub stopped-Evolves : (now : ℕ) (read j : Job) → Evolves j (stopped now read j)
unfolding stopped
stopped-Evolves now read j = record {
  same_id = refl;
  attempt_grows = omega arith;
  terminal_stays = λ g. inr refl;
}

pub claims-RowAfter :
    (c : ClaimArgs) (js : List Job)
    → Unique js
    → (r : List Job × Option Job) → Claimed c js r
    → (i : ℕ) (j : Job) → find i js ≡ some j
    → RowAfter i j r.0
claims-RowAfter c js u r (nothing a b e) i j here = rw e (j, here, Evolves-refl j)
claims-RowAfter c js u r (took k there h e) i j here =
    rw e (took-RowAfter c js u i j k there h here)

-- An UPDATE by primary key, at the row of the key and at any other.
pub update_key-find :
    (f : Job → Job)
    → KeepsId f
    → (i : ℕ) (js : List Job) (j : Job) → find i js ≡ some j
    → find i (update (λ k. k.id == i) f js) ≡ some (f j)
update_key-find f keeps i js j e =
    find-update (λ k. k.id == i) f keeps i js ∙ rw e (rw ((==_iff _ _).1 (find-id i js j e)) refl)

pub update_key-find_ne :
    (f : Job → Job)
    → KeepsId f
    → (i k : ℕ) (js : List Job) (j : Job) → i ≢ k
    → find i js ≡ some j
    → find i (update (λ x. x.id == k) f js) ≡ some j
update_key-find_ne f keeps i k js j h e =
    find-update (λ x. x.id == k) f keeps i js ∙ rw e (ground (arith, find-id i js j e))

pub fails-RowAfter :
    (l : Lease) (e : Failure) (db_now now : ℕ) (js : List Job)
    → Unique js
    → (i : ℕ) (j : Job) → find i js ≡ some j
    → RowAfter i j (fail l e db_now now js).0
fails-RowAfter l e db_now now js u i j here = elim (Bool-cases (any_row (fence l db_now) js)) [
  | inr r ↦ rw ((refused_unchanged l none e 0 db_now now js r).2) (j, here, Evolves-refl j)
  | inl a ↦ accepted_RowAfter a
]
  where
    accepted_RowAfter : any_row (fence l db_now) js ≡ true → RowAfter i j (fail l e db_now now js).0
    accepted_RowAfter a =
        let (k, here', holds, there, eq) = fail_held l e db_now now js u a in
        rw eq (elim (ℕ_discrete i l.job_id) [
          | yes same ↦
              let same_row : k ≡ j = ground (arith) in
              (
                settled e.retryable (released e.error_code e.error_message k) now
                    (released e.error_code e.error_message k),
                rw same (update_key-find _ (settled-id e.retryable _ now) l.job_id _ _ there),
                subst
                    (λ x. Evolves x (
                      settled e.retryable (released e.error_code e.error_message k) now
                        (released e.error_code e.error_message k)))
                    same_row
                    (failed-Evolves l db_now e now k (released e.error_code e.error_message k)
                      holds),
              )
          | no other ↦ (
            j,
            update_key-find_ne _ (settled-id e.retryable _ now) i l.job_id _ j other (
                fenced-others l db_now (released e.error_code e.error_message)
                  (λ x. unfold released in refl) js i other
                ∙ here),
            Evolves-refl j,
          )
        ])

pub cancels-RowAfter :
    (now : ℕ) (js : List Job) (o : Option Job) (i : ℕ) (j : Job)
    → find i js ≡ some j
    → RowAfter i j (cancel_row now o js).0
unfolding cancel_row
cancels-RowAfter now js none i j here = (j, here, Evolves-refl j)
cancels-RowAfter now js (some x) i j here = elim (Bool-cases (is_open x.status)) [
  | inl o ↦ rw o (
      update-RowAfter (λ y. y.id == x.id) (stopped now x) (λ y. unfold stopped in refl) i js j
        (λ t. stopped-Evolves now x j) here)
  | inr o ↦ rw o (j, here, Evolves-refl j)
]

-- One call, whoever makes it, keeps every row: the attempt does not fall, and a row in a terminal state stays as it is or is
-- cancelled.
pub after-RowAfter :
    (c : Call) (js : List Job)
    → Unique js
    → (i : ℕ) (j : Job) → find i js ≡ some j
    → RowAfter i j (after c js)
unfolding after heartbeat complete cancel
after-RowAfter (claims c) js u i j e =
    claims-RowAfter c js u (claim_next c js) (claim_next-Claimed c js u) i j e
after-RowAfter (heartbeats l n t) js u i j e =
    update-RowAfter (fence l t) (renewed (t + seconds n)) (λ x. unfold renewed in refl) i js j
      (renewed-Evolves l t (t + seconds n) j) e
after-RowAfter (completes l r t now) js u i j e =
    update-RowAfter (fence l t) (finished r now) (λ x. unfold finished in refl) i js j
      (finished-Evolves l t r now j) e
after-RowAfter (fails l f t now) js u i j e = fails-RowAfter l f t now js u i j e
after-RowAfter (cancels k now read) js u i j e = cancels-RowAfter now js (find k read) i j e
