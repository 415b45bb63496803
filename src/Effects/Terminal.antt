-- ===== src/Effects/Terminal.antt =====
-- `run_effect_once` (map-business-backend/app/workers/job_runner.py) on an effect whose outcome is recorded.
use map.Base.{ℕ, suc, false, ◌≡◌, refl, ap, ◌∙◌, inl, inr, Option, none, some, List, [], ◌∷◌, ◌+◌}
use map.Effects.{
  EffectStatus, uncertain, Row, Slot, Ledger, Statement, record_intent, begin_dispatch, execute,
  snapshot_row, statement_row, update_row, is_pending,
}
use map.Effects.World.{
  Sys, Event, runs, passes, happen, happen_all, interfere, interfere_with, issue, issued, snapshot,
  Caller, begin, Decision, decide, already_delivered, already_uncertain,
}
use map.Effects.Resolve.{leave, again}
use map.Effects.Guard.{
  Verdict, returned_delivered, raised, terminal_state, intend, act, begun_round, effect_round,
  effect_loop, budget, run_protocol,
}
use map.Effects.Fencing.{IsTerminal}
use map.Effects.Rows.{run, run-After}

-- The row is still this one, and the provider has not been asked.
pub record Untouched (slot : Slot) (r : Row) (s t : Sys) : Type 0 where
  pub row : t.ledger.rows slot ≡ some r
  pub sent : t.sent ≡ s.sent

module _ (slot : Slot) (r : Row) (terminal : IsTerminal r) where
  execute_terminal :
      (st : Statement) (k : Slot) (now : ℕ) (l : Ledger)
      → l.rows slot ≡ some r
      → (execute st k now l).0.rows slot ≡ some r
  unfolding run
  execute_terminal st k now l h =
      let (x, e, a) = run-After (record { statement = st; slot = k; now = now } ∷ []) l slot r h in
      e ∙ ap some (a.terminal_stays terminal)

  happen_all_terminal :
      (es : List Event) (s : Sys)
      → s.ledger.rows slot ≡ some r
      → Untouched slot r s (happen_all es s)
  unfolding happen_all happen
  happen_all_terminal [] s h = record { row = h; sent = refl }
  happen_all_terminal (runs st k ∷ es) s h =
      let u =
        happen_all_terminal es (happen (runs st k) s) (execute_terminal st k s.db_now s.ledger h) in
      record { row = u.row; sent = u.sent }
  happen_all_terminal (passes n ∷ es) s h =
      let u = happen_all_terminal es (happen (passes n) s) h in
      record { row = u.row; sent = u.sent }

  interfere_terminal : (s : Sys) → s.ledger.rows slot ≡ some r → Untouched slot r s (interfere s)
  unfolding interfere
  interfere_terminal s h = go s.others
    where
      go : (os : List (List Event)) → Untouched slot r s (interfere_with os s)
      go [] = record { row = h; sent = refl }
      go (es ∷ rest) =
          let u = happen_all_terminal es (record s { others = rest }) h in
          record { row = u.row; sent = u.sent }

  issued_terminal :
      (st : Statement) (s : Sys)
      → s.ledger.rows slot ≡ some r
      → Untouched slot r s (issued st slot s).1
  issued_terminal st s h = record {
    row = execute_terminal st slot s.db_now s.ledger h;
    sent = refl;
  }

  Untouched-trans :
      {s t u : Sys} → Untouched slot r s t → Untouched slot r t u → Untouched slot r s u
  Untouched-trans a b = record { row = b.row; sent = b.sent ∙ a.sent }

  not_pending : is_pending r.status ≡ false
  not_pending = elim terminal [ inl e ↦ rw e refl | inr e ↦ rw e refl ]

  begin_refused :
      (c : Caller) (s : Sys)
      → s.ledger.rows slot ≡ some r
      → (issued (begin_dispatch c.owner c.attempt c.lease) slot s).0 ≡ false
  unfolding execute statement_row update_row
  begin_refused c s h = rw h (rw not_pending refl)

abbrev pub decision_of : EffectStatus → Decision
decision_of uncertain = already_uncertain
decision_of _ = already_delivered

abbrev pub verdict_of : EffectStatus → Verdict
verdict_of uncertain = raised terminal_state
verdict_of _ = returned_delivered

module _ (c : Caller) (r : Row) (terminal : IsTerminal r) where
  open c use {slot}

  begin_terminal :
      (s : Sys)
      → s.ledger.rows slot ≡ some r
      → ((begin c s).0 ≡ decision_of r.status) × Untouched slot r s (begin c s).1
  unfolding begin snapshot snapshot_row decide
  begin_terminal s h =
      let a = interfere_terminal slot r terminal s h in
      let b =
        issued_terminal slot r terminal (begin_dispatch c.owner c.attempt c.lease) (interfere s)
          a.row in
      let d =
        interfere_terminal slot r terminal
          (issued (begin_dispatch c.owner c.attempt c.lease) slot (interfere s)).1 b.row in
      let e = begin_refused slot r terminal c (interfere s) a.row in
      rw e (
        rw d.row (elim terminal [ inl q ↦ rw q refl | inr q ↦ rw q refl ]),
        Untouched-trans slot r terminal (Untouched-trans slot r terminal a b) d,
      )

  intend_terminal :
      (job_id : Option ℕ) (s : Sys)
      → s.ledger.rows slot ≡ some r
      → Untouched slot r s (intend c job_id s)
  unfolding intend issue
  intend_terminal job_id s h =
      let a = interfere_terminal slot r terminal s h in
      Untouched-trans slot r terminal a
        (issued_terminal slot r terminal (record_intent job_id) (interfere s) a.row)

  module _ (job_id : Option ℕ) (deadline fuel : ℕ) where
    begun_terminal :
        (d : Decision) (s : Sys)
        → d ≡ decision_of r.status
        → begun_round c job_id deadline fuel (d, s) ≡ some (leave (verdict_of r.status) s)
    unfolding begun_round act
    begun_terminal d s e = rw e (elim terminal [ inl q ↦ rw q refl | inr q ↦ rw q refl ])

    loop_terminal :
        (s : Sys)
        → s.ledger.rows slot ≡ some r
        → effect_loop c job_id deadline (suc fuel) s ≡ some (verdict_of r.status, (begin c s).1)
    unfolding effect_loop effect_round
    loop_terminal s h =
        ap
          (λ o. elim o [
            | none ↦ none
            | some (leave v t) ↦ some (v, t)
            | some (again t) ↦ effect_loop c job_id deadline fuel t
          ])
          (begun_terminal (begin c s).0 (begin c s).1 (begin_terminal s h).0)

  -- An effect whose row is delivered or uncertain is never dispatched again: whatever other callers execute, `run_effect_once` returns `delivered`
  -- or raises for the terminal state, as the row says, without asking the provider to act, and the row stays as it is.
  pub terminal_never_sent :
      (job_id : Option ℕ) (fuel : ℕ) (s : Sys)
      → s.ledger.rows c.slot ≡ some r
      → (t : Sys) × (run_protocol (suc fuel) c job_id s ≡ some (verdict_of r.status, t))
        × Untouched c.slot r s t
  unfolding run_protocol
  terminal_never_sent job_id fuel s h =
      let u = intend_terminal job_id s h in
      (
        (begin c (intend c job_id s)).1,
        loop_terminal job_id (s.loop_now + budget c.lease) fuel (intend c job_id s) u.row,
        Untouched-trans slot r terminal u (begin_terminal (intend c job_id s) u.row).1,
      )
