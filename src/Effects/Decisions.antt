-- ===== src/Effects/Decisions.antt =====
-- What the ledger holds when `_resolve_dispatching` (map-business-backend/app/workers/job_runner.py) has decided, whatever other
-- callers execute between its statements.
use map.Base.{
  ℕ, zero, suc, Bool, true, false, ◌≡◌, refl, Option, none, some, arith, if◌then◌else◌, Bool-cases,
  String, inl, inr,
}
use map.Effects.{
  EffectStatus, pending, dispatching, delivered, uncertain, Row, Fence, Slot, Statement, ack_effect,
  confirm_provider_fact, mark_uncertain, statement_row, execute, begin_dispatch, snapshot_row,
  Snapshot, update_row, owns, ended, outcome_text, write, confirmable,
}
use map.Effects.History.{same_slot_refl, wrote_row}
use map.Effects.World.{
  Sys, Answer, confirmed, absent, unknown, broken, Caller, Decision, proceed, already_delivered,
  already_uncertain, retry, timeout, is_dispatching, interfere, issued, issue, snapshot, has_effect,
  decide, shows_delivered, begin, adopt, ack, confirm, provider_query, poll,
}
use map.Effects.Resolve.{
  Round, leave, again, outcome_unknown, settle_adopted, after_adopt, unconfirmed_round,
  answered_round, decided_round, resolve_round, resolve,
}

-- The ledger has a row of this status for the key.
abbrev pub StatusAt : EffectStatus → Slot → Sys → Type 0
StatusAt st slot s = (r : Row) × (s.ledger.rows slot ≡ some r) × (r.status ≡ st)

abbrev pub DecisionMeans : Slot → Decision → Sys → Type 0
DecisionMeans slot already_delivered s = StatusAt delivered slot s
DecisionMeans slot already_uncertain s = StatusAt uncertain slot s
DecisionMeans slot _ s = Unit

abbrev pub RoundMeans : Slot → Round Decision → Type 0
RoundMeans slot (leave d s) = DecisionMeans slot d s
RoundMeans slot (again s) = Unit

pub ended_at :
    (st : EffectStatus) (text : String) (p : Row → Bool) (stm : Statement) (slot : Slot) (now : ℕ)
    (s : Sys)
    → statement_row stm s.ledger.minted now (s.ledger.rows slot)
      ≡ update_row p (ended st text) (s.ledger.rows slot)
    → (execute stm slot now s.ledger).1 ≡ true
    → (r : Row) × ((execute stm slot now s.ledger).0.rows slot ≡ some r) × (r.status ≡ st)
unfolding execute write
ended_at st text p stm slot now s e ok =
    let (r, h, w) = wrote_row p (ended st text) (s.ledger.rows slot) (rw e at ok) in
    (ended st text r, rw (same_slot_refl slot, e) w, unfold ended in refl)

pub ack-ended :
    (f : Fence) (slot : Slot) (s : Sys)
    → (issue (ack_effect f) slot s).0 ≡ true
    → StatusAt delivered slot (issue (ack_effect f) slot s).1
unfolding issue statement_row
ack-ended f slot s ok =
    ended_at delivered "confirmed" (owns f) (ack_effect f) slot (interfere s).db_now (interfere s)
      refl ok

pub confirm-ended :
    (o : Snapshot) (slot : Slot) (s : Sys)
    → (issue (confirm_provider_fact o) slot s).0 ≡ true
    → StatusAt delivered slot (issue (confirm_provider_fact o) slot s).1
unfolding issue statement_row
confirm-ended o slot s ok =
    ended_at delivered "confirmed-by-provider-query" (confirmable o) (confirm_provider_fact o) slot
      (interfere s).db_now (interfere s) refl ok

pub uncertain-ended :
    (f : Fence) (reason : Option String) (slot : Slot) (s : Sys)
    → (issue (mark_uncertain f reason) slot s).0 ≡ true
    → StatusAt uncertain slot (issue (mark_uncertain f reason) slot s).1
unfolding issue statement_row
uncertain-ended f reason slot s ok =
    ended_at uncertain (outcome_text reason) (owns f) (mark_uncertain f reason) slot
      (interfere s).db_now (interfere s) refl ok

pub shown :
    (now : ℕ) (o : Option Row)
    → shows_delivered (snapshot_row now o).status ≡ true
    → (r : Row) × (o ≡ some r) × (r.status ≡ delivered)
unfolding snapshot_row
shown now none h = cc
shown now (some r) h = (r, refl, ground arith)

pub has_effect-StatusAt :
    (slot : Slot) (s : Sys)
    → (has_effect slot s).0 ≡ true
    → StatusAt delivered slot (has_effect slot s).1
unfolding has_effect snapshot
has_effect-StatusAt slot s h = shown (interfere s).db_now ((interfere s).ledger.rows slot) h

pub status_means :
    (slot : Slot) (t : Sys) (ob : Snapshot) (r : Row)
    → t.ledger.rows slot ≡ some r
    → (st : EffectStatus) → r.status ≡ st
    → DecisionMeans slot (decide ob (some st)) t
unfolding decide
status_means slot t ob r e pending h = tt
status_means slot t ob r e dispatching h = tt
status_means slot t ob r e delivered h = (r, e, h)
status_means slot t ob r e uncertain h = (r, e, h)

pub row_means :
    (slot : Slot) (t : Sys) (ob : Snapshot) (now : ℕ) (o : Option Row)
    → t.ledger.rows slot ≡ o
    → DecisionMeans slot (decide ob (snapshot_row now o).status) t
unfolding snapshot_row
row_means slot t ob now none e = unfold decide in tt
row_means slot t ob now (some r) e = status_means slot t ob r e r.status refl

pub snapshot-Means :
    (slot : Slot) (s : Sys)
    → DecisionMeans slot (decide (snapshot slot s).0 (snapshot slot s).0.status) (snapshot slot s).1
unfolding snapshot
snapshot-Means slot s =
    row_means slot (interfere s) _ (interfere s).db_now ((interfere s).ledger.rows slot) refl

module _ (c : Caller) where
  open c use {slot, owner, attempt, lease}

  pub ack-StatusAt :
      (f : Fence) (s : Sys) → (ack c f s).0 ≡ true → StatusAt delivered slot (ack c f s).1
  unfolding ack
  ack-StatusAt f s h = elim (Bool-cases (issue (ack_effect f) slot s).0) [
    | inl e ↦ rw e (ack-ended f slot s e)
    | inr e ↦ rw e (has_effect-StatusAt slot (issue (ack_effect f) slot s).1 (rw e at h))
  ]

  pub confirm-StatusAt :
      (o : Snapshot) (s : Sys)
      → (confirm c o s).0 ≡ true
      → StatusAt delivered slot (confirm c o s).1
  unfolding confirm
  confirm-StatusAt o s h = elim (Bool-cases (issue (confirm_provider_fact o) slot s).0) [
    | inl e ↦ rw e (confirm-ended o slot s e)
    | inr e ↦ rw e (has_effect-StatusAt slot (issue (confirm_provider_fact o) slot s).1 (rw e at h))
  ]

  pub begin-Means : (s : Sys) → DecisionMeans slot (begin c s).0 (begin c s).1
  unfolding begin
  begin-Means s =
      elim (Bool-cases (issued (begin_dispatch owner attempt lease) slot (interfere s)).0) [
        | inl e ↦ rw e tt
        | inr e ↦
            rw e (
              snapshot-Means slot
                (issued (begin_dispatch owner attempt lease) slot (interfere s)).1)
      ]

pub if_elim {ℓ κ} :
    {A : Type ℓ} (P : A → Type κ) (b : Bool) (x y : A)
    → (b ≡ true → P x)
    → (b ≡ false → P y)
    → P (if b then x else y)
if_elim P true x y f g = f refl
if_elim P false x y f g = g refl

pub leave_if :
    (slot : Slot) (d : Decision) (t : Sys) (b : Bool)
    → (b ≡ true → DecisionMeans slot d t)
    → RoundMeans slot (if b then leave d t else again t)
leave_if slot d t true h = h refl
leave_if slot d t false h = tt

module _ (c : Caller) (deadline : ℕ) where
  open c use {slot, owner, attempt, lease}

  pub settle_adopted-Means :
      (f : Fence) (a : Answer) (s : Sys) → RoundMeans slot (settle_adopted c deadline f a s)
  unfolding settle_adopted
  settle_adopted-Means f confirmed s =
      leave_if slot already_delivered (ack c f s).1 (ack c f s).0 (ack-StatusAt c f s)
  settle_adopted-Means f absent s = tt
  settle_adopted-Means f unknown s =
      leave_if slot already_uncertain (issue (mark_uncertain f (some outcome_unknown)) slot s).1
        (issue (mark_uncertain f (some outcome_unknown)) slot s).0
        (uncertain-ended f (some outcome_unknown) slot s)
  settle_adopted-Means f broken s =
      leave_if slot already_uncertain (issue (mark_uncertain f (some outcome_unknown)) slot s).1
        (issue (mark_uncertain f (some outcome_unknown)) slot s).0
        (uncertain-ended f (some outcome_unknown) slot s)

  pub after_adopt-Means :
      (f : Option Fence) (s : Sys) → RoundMeans slot (after_adopt c deadline f s)
  unfolding after_adopt
  after_adopt-Means none s = tt
  after_adopt-Means (some f) s = settle_adopted-Means f (provider_query s).0 (provider_query s).1

  pub unconfirmed_round-Means :
      (o : Snapshot) (s : Sys) → RoundMeans slot (unconfirmed_round c deadline o s)
  unfolding unconfirmed_round
  unconfirmed_round-Means o s =
      if_elim (RoundMeans slot) o.lease_alive
        (if (poll deadline s).0
          then again (poll deadline s).1
          else leave timeout (poll deadline s).1)
        (after_adopt c deadline (adopt c o s).0 (adopt c o s).1)
        (λ e.
          if_elim (RoundMeans slot) (poll deadline s).0 (again (poll deadline s).1)
            (leave timeout (poll deadline s).1) (λ g. tt) (λ g. tt))
        (λ e. after_adopt-Means (adopt c o s).0 (adopt c o s).1)

  pub answered_round-Means :
      (o : Snapshot) (a : Answer) (s : Sys) → RoundMeans slot (answered_round c deadline o a s)
  unfolding answered_round
  answered_round-Means o confirmed s =
      leave_if slot already_delivered (confirm c o s).1 (confirm c o s).0 (confirm-StatusAt c o s)
  answered_round-Means o absent s = unconfirmed_round-Means o s
  answered_round-Means o unknown s = unconfirmed_round-Means o s
  answered_round-Means o broken s = unconfirmed_round-Means o s

  pub decided_round-Means :
      (o : Snapshot) (d : Decision) (s : Sys)
      → DecisionMeans slot d s
      → RoundMeans slot (decided_round c deadline o d s)
  unfolding decided_round
  decided_round-Means o (is_dispatching x) s h =
      answered_round-Means o (provider_query s).0 (provider_query s).1
  decided_round-Means o (proceed x) s h = h
  decided_round-Means o already_delivered s h = h
  decided_round-Means o already_uncertain s h = h
  decided_round-Means o retry s h = h
  decided_round-Means o timeout s h = h

  pub resolve_round-Means : (s : Sys) → RoundMeans slot (resolve_round c deadline s)
  unfolding resolve_round
  resolve_round-Means s =
      decided_round-Means (snapshot slot s).0 _ (snapshot slot s).1 (snapshot-Means slot s)

  abbrev pub ResultMeans : Option Decision × Sys → Type 0
  ResultMeans (none, s) = Unit
  ResultMeans (some d, s) = DecisionMeans slot d s

  pub resolve-Means : (fuel : ℕ) (s : Sys) → ResultMeans (resolve c deadline fuel s)
  unfolding resolve
  resolve-Means zero s = tt
  resolve-Means (suc fuel) s =
      go (resolve-Means fuel) (resolve_round c deadline s) (resolve_round-Means s)
    where
      go :
          ((t : Sys) → ResultMeans (resolve c deadline fuel t))
          → (r : Round Decision) → RoundMeans slot r
          → ResultMeans (elim r [ leave d t ↦ (some d, t) | again t ↦ resolve c deadline fuel t ])
      go ih (leave d t) h = h
      go ih (again t) h = ih t
