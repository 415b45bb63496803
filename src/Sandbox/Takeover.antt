-- ===== src/Sandbox/Takeover.antt =====
-- `takeover` and `claim` of the ledger in the database beside the in-memory ledger's (map_core/map_core/service/sandbox_ledger.py),
-- when no other caller's statement falls between their own.
use map.Base.{
  ℕ, suc, ◌+◌, Bool, true, false, not, Option, none, some, str_eq, if◌then◌else◌, ◌≡◌, refl, sym,
  ap, ◌∙◌, Bool-cases, inl, inr, eq_refl, ==_iff,
}
use map.Sandbox.{
  owned, is_terminal, Key, ClaimOutcome, Result, ok, ClaimArgs, TakeoverArgs, Table, write, put,
  same_key, LedgerError, replay, in_progress, takeover,
}
use map.Sandbox.Memory
use map.Sandbox.Operations
use map.Sandbox.Postgres
use map.Sandbox.Memory.{Ledger, expired, is_pending}
use map.Sandbox.Postgres.{
  Row, record_from_row, World, Session, fine, lapsed, is_open, update_at, carries, insert_at,
  new_row, Statement, completed, not_distinct,
}
use map.Sandbox.Refinement.{
  quiet, start, view, view_option, seen, answer, put-view, expired-lapsed, ledger_of,
}

same_key_refl : (k : Key) → same_key k k ≡ true
same_key_refl k = rw (eq_refl k.workspace_id, eq_refl k.invocation_id) refl

not_distinct_refl : (o : Option ℕ) → not_distinct o o ≡ true
not_distinct_refl none = refl
not_distinct_refl (some n) = (==_iff n n).1 refl

pub put_at : (k : Key) (r : Row) (t : Table Row) → (put k r t).at k ≡ some r
unfolding put write
put_at k r t = rw (same_key_refl k) refl

module _ (e : LedgerError) (a : TakeoverArgs) (n : ℕ) (t : Table Row) where
  abbrev w : World
  w = quiet a.now a.token

  abbrev at_step : ℕ → Table Row → Session
  at_step m x = record { table = x; step = m }

  abbrev new_row_of : Row → Row
  new_row_of r = Postgres.taken a.owner_id a.lease_seconds a.token a.now r

  round_at :
      (o : Option Row)
      → t.at a.key ≡ o
      → Operations.takeover_round w e a (at_step n t)
        ≡ Operations.classify w e a (Operations.observed_row w e a a.now o) (at_step (suc n) t)
  unfolding Operations.takeover_round
  round_at o h =
      ap
        (λ x. Operations.classify w e a (Operations.observed_row w e a a.now x) (at_step (suc n) t))
        h

  update_here :
      (r : Row)
      → t.at a.key ≡ some r
      → is_terminal r.status ≡ false
      → lapsed r.lease_expires_at a.now ≡ true
      → update_at a.key (Postgres.takeable r.fencing_token a.now) new_row_of (t.at a.key) t
        ≡ (put a.key (new_row_of r) t, true)
  unfolding Postgres.takeable update_at
  update_here r h q d = rw h (rw (q, d, not_distinct_refl r.fencing_token) refl)

  try_take_here :
      (r : Row)
      → t.at a.key ≡ some r
      → is_terminal r.status ≡ false
      → lapsed r.lease_expires_at a.now ≡ true
      → Operations.try_take w e a r (at_step (suc n) t) ≡ (
        at_step (suc (suc (suc n))) (put a.key (new_row_of r) t),
        ok (
            some (
              takeover
                (record_from_row (new_row_of r))
                (Memory.new_fence a.token a.owner_id (r.attempt + 1)))),
      )
  unfolding Operations.try_take
  try_take_here r h q d =
      ap
        (λ u.
          Postgres.and_then (Postgres.answered fine e (suc n) t u)
            (Operations.after_update w e a (Memory.new_fence a.token a.owner_id (r.attempt + 1))))
        (update_here r h q d)
      ∙ ap
          (λ o. (
            at_step (suc (suc (suc n))) (put a.key (new_row_of r) t),
            ok (
                Operations.taken_outcome w e a (Memory.new_fence a.token a.owner_id (r.attempt + 1))
                  o),
          ))
          (put_at a.key (new_row_of r) t)

  loop_once :
      (fuel : ℕ) (s s' : Session) (o : ClaimOutcome)
      → Operations.takeover_round w e a s ≡ (s', ok (some o))
      → Operations.takeover_loop w e a (suc fuel) s ≡ (s', ok o)
  unfolding Operations.takeover_loop
  loop_once fuel s s' o h =
      ap (Operations.after_round w e a (λ t. Operations.takeover_loop w e a fuel t)) h

  -- The outcome of the in-memory `takeover` and of the round, on the same row.
  round_seen :
      (o : Option Row)
      → t.at a.key ≡ o
      → (s' : Session) × (c : ClaimOutcome) × (Operations.classify w e a
            (Operations.observed_row w e a a.now o)
            (at_step (suc n) t)
          ≡ (s', ok (some c)))
        × ◌≡◌ {A = Ledger × ClaimOutcome}
            (view s'.table, c)
            (Memory.takeover_row a (view_option o) (view t))
  unfolding Operations.classify Operations.observed_row Memory.takeover_row record_from_row
  round_seen none h = (_, _, refl, refl)
  round_seen (some r) h = elim (Bool-cases (is_terminal r.status)) [
    | inl q ↦ (at_step (suc n) t, replay (record_from_row r), rw q refl, rw q refl)
    | inr q ↦ elim (Bool-cases (lapsed r.lease_expires_at a.now)) [
      | inl d ↦ (
        at_step (suc (suc (suc n))) (put a.key (new_row_of r) t),
        takeover (record_from_row (new_row_of r))
            (Memory.new_fence a.token a.owner_id (r.attempt + 1)),
        rw (q, d) (try_take_here r h q d),
        rw (q, expired-lapsed a.now r, d)
            (ap
              (λ x. (
                ledger_of x,
                takeover (record_from_row (new_row_of r))
                    (Memory.new_fence a.token a.owner_id (r.attempt + 1)),
              ))
              (put-view a.key (new_row_of r) t)),
      )
      | inr d ↦ (
        at_step (suc n) t,
        in_progress (record_from_row r),
        rw (q, d) refl,
        rw (q, expired-lapsed a.now r, d) refl,
      )
    ]
  ]

  pub takeover_loop-refines :
      (fuel : ℕ)
      → seen (Operations.takeover_loop w e a (suc fuel) (at_step n t))
        ≡ answer (Memory.take_over a (view t))
  unfolding Memory.take_over
  takeover_loop-refines fuel =
      let (s', c, h, g) = round_seen (t.at a.key) refl in
      ap seen (loop_once fuel (at_step n t) s' c (round_at (t.at a.key) refl ∙ h)) ∙ ap answer g

  takeover_loop-first :
      (fuel : ℕ)
      → Operations.takeover_loop w e a (suc fuel) (at_step n t)
        ≡ Operations.takeover_loop w e a 1 (at_step n t)
  takeover_loop-first fuel =
      let (s', c, h, g) = round_seen (t.at a.key) refl in
      let once = round_at (t.at a.key) refl ∙ h in
      loop_once fuel (at_step n t) s' c once ∙ sym (loop_once 0 (at_step n t) s' c once)

-- When nobody else interferes, `takeover` of the database ledger does what its loop does with a single round, statement for
-- statement, and it answers and leaves what the in-memory ledger does with the same token.
pub take_over-refines :
    (a : TakeoverArgs) (t : Table Row)
    → (Operations.take_over (quiet a.now a.token) a (start t)
        ≡ Operations.takeover_loop
            (quiet a.now a.token)
            (Operations.failed "takeover failed")
            a
            1
            (start t))
      × (seen (Operations.take_over (quiet a.now a.token) a (start t))
          ≡ answer (Memory.take_over a (view t)))
unfolding Operations.take_over
take_over-refines a t = (
  takeover_loop-first (Operations.failed "takeover failed") a 0 t 4,
  takeover_loop-refines (Operations.failed "takeover failed") a 0 t 4,
)

module _ (c : ClaimArgs) (t : Table Row) where
  abbrev w_claim : World
  w_claim = quiet c.now c.takeover_token

  abbrev fail_claim : LedgerError
  fail_claim = Operations.failed "claim failed"

  -- The SELECT of `claim` after the INSERT.
  fetched : Table Row × Bool → Session × Result ClaimOutcome
  unfolding Operations.claim_found
  fetched (x, inserted) =
      Operations.claim_found w_claim c inserted (x.at c.key) (record { table = x; step = 2 })

  claim-fetched :
      (u : Table Row × Bool)
      → Postgres.execute (Postgres.inserts c) c.now t ≡ u
      → Operations.claim w_claim c (start t) ≡ fetched u
  unfolding Operations.claim fetched
  claim-fetched u h = ap fetched h

  -- On a live lease `take_over` answers as `claim` does by itself.
  take_over_live :
      (r : Row)
      → t.at c.key ≡ some r
      → is_terminal r.status ≡ false
      → Memory.take_over (Memory.takeover_of c) (view t) ≡ (
          if◌then◌else◌ {A = Ledger × ClaimOutcome}
            (not (expired c.now (record_from_row r)))
            (view t, in_progress (record_from_row r))
            (Memory.take_over (Memory.takeover_of c) (view t)))
  unfolding Memory.take_over record_from_row
  take_over_live r h d = elim (Bool-cases (expired c.now (record_from_row r))) [
    | inl x ↦ rw x refl
    | inr x ↦
        ap (λ o. Memory.takeover_row (Memory.takeover_of c) (view_option o) (view t)) h
        ∙ rw (d, x) refl
  ]

  claim_row-refines :
      (o : Option Row)
      → t.at c.key ≡ o
      → seen (fetched (insert_at c.key (new_row c c.now) o t))
        ≡ answer (Memory.claim_row c (view_option o) (view t))
  unfolding fetched insert_at Memory.claim_row record_from_row new_row Memory.new_record
  claim_row-refines none h =
      ap
        (λ o. seen (
          Operations.claim_found w_claim c true o
            (record { table = put c.key (new_row c c.now) t; step = 2 })))
        (put_at c.key (new_row c c.now) t)
      ∙ ap
          (λ x.
            (ledger_of x, ok (owned (Memory.new_record c) (Memory.new_fence c.token c.owner_id 0))))
          (put-view c.key (new_row c c.now) t)
  claim_row-refines (some r) h =
      ap (λ o. seen (Operations.claim_found w_claim c false o (record { table = t; step = 2 }))) h
      ∙ elim (Bool-cases (str_eq r.request_digest c.request_digest)) [
        | inl q ↦ elim (Bool-cases (is_terminal r.status)) [
          | inl d ↦ rw (q, d) refl
          | inr d ↦
              rw (q, d)
                (takeover_loop-refines fail_claim (Memory.takeover_of c) 2 t 4
                  ∙ ap answer (take_over_live r h d))
        ]
        | inr q ↦ rw q refl
      ]

  -- When nobody else interferes, `claim` of the database ledger answers (owned, takeover, replay, conflict or in progress, with record and
  -- fence) and leaves what the in-memory ledger does with the same tokens.
  pub claim-refines : seen (Operations.claim w_claim c (start t)) ≡ answer (Memory.claim c (view t))
  unfolding Postgres.execute Memory.claim
  claim-refines =
      ap seen (claim-fetched (insert_at c.key (new_row c c.now) (t.at c.key) t) refl)
      ∙ claim_row-refines (t.at c.key) refl
