-- ===== src/Effects/Fresh.antt =====
-- `run_effect_once` (map-business-backend/app/workers/job_runner.py) on a fresh effect, when no other caller is left.
use map.Base.{ℕ, suc, true, ◌≡◌, refl, ap, ◌∙◌, Option, none, some, List, [], ◌∷◌, ◌+◌}
use map.Effects.{
  pending, delivered, Row, Fence, Slot, Statement, mint, ack_effect, execute, statement_row,
  intent_row, update_row, begin_row, dispatched, owns, fence_predicate, write,
}
use map.Effects.World.{
  Sys, issue, Caller, begin, ack, Decision, proceed, Sent, acknowledged, next_sent, provider_send,
}
use map.Effects.Resolve.{leave, again}
use map.Effects.Guard.{
  settled_delivered, acknowledge, settle_sent, dispatch_to_provider, settlement_round,
  returned_delivered, intend, act, begun_round, effect_round, effect_loop, budget, run_protocol,
}
use map.Effects.Held.{QuietAt, interfere_quiet, equal_refl, ack_quiet, issue_quiet, ack_written}
use map.Effects.Decisions.{StatusAt, ack-StatusAt}
use map.Effects.History.{same_slot_refl}

abbrev pub IsFresh : Option Row → Type 0
IsFresh none = Unit
IsFresh (some r) = r.status ≡ pending

fresh_row :
    (job_id : Option ℕ) (o : Option Row)
    → IsFresh o
    → (r : Row) × (intent_row job_id o ≡ some r) × (r.status ≡ pending)
unfolding intent_row
fresh_row job_id none h = (_, refl, refl)
fresh_row job_id (some r) h = (r, refl, h)

-- Nobody else is left, the row is this one, and the provider will acknowledge.
record Ready (slot : Slot) (r : Row) (rest : List Sent) (n : ℕ) (s : Sys) : Type 0 where
  nobody : s.others ≡ []
  row : s.ledger.rows slot ≡ some r
  sends : s.sends ≡ acknowledged ∷ rest
  sent : s.sent ≡ n

module _ (c : Caller) (rest : List Sent) (n : ℕ) where
  open c use {slot}

  intend-Ready :
      (job_id : Option ℕ) (s : Sys) (r : Row)
      → s.others ≡ []
      → intent_row job_id (s.ledger.rows slot) ≡ some r
      → s.sends ≡ acknowledged ∷ rest
      → s.sent ≡ n
      → Ready slot r rest n (intend c job_id s)
  unfolding intend issue execute statement_row write
  intend-Ready job_id s r h e k g =
      rw (interfere_quiet s h)
        (record { nobody = h; row = rw (same_slot_refl slot) e; sends = k; sent = g })

  begin-Ready :
      (s : Sys) (r : Row)
      → r.status ≡ pending
      → Ready slot r rest n s
      → (f : Fence) × (r' : Row) × ((begin c s).0 ≡ proceed f)
        × (owns f r' ≡ true)
        × Ready slot r' rest n (begin c s).1
  unfolding begin execute statement_row
  begin-Ready s r p h =
      let f : Fence = mint s.ledger c.owner c.attempt in
      let r' : Row = dispatched f (s.db_now + c.lease) r in
      let ok : begin_row f (s.db_now + c.lease) (some r) ≡ (some r', true) =
        unfold begin_row update_row in rw p refl in
      (
        f,
        r',
        rw (interfere_quiet s h.nobody, h.row, ok) refl,
        unfold owns fence_predicate dispatched in
            rw (equal_refl s.ledger.minted, equal_refl c.owner, equal_refl c.attempt) refl,
        rw (interfere_quiet s h.nobody, h.row, ok)
            (record {
              nobody = h.nobody;
              row = unfold write in rw (same_slot_refl slot) refl;
              sends = h.sends;
              sent = h.sent;
            }),
      )

  issue_sent : (st : Statement) (s : Sys) → s.others ≡ [] → (issue st slot s).1.sent ≡ s.sent
  unfolding issue
  issue_sent st s h = rw (interfere_quiet s h) refl

  -- The acknowledged send, and its acknowledgement in the ledger.
  dispatch-Ready :
      (f : Fence) (r : Row) (s : Sys)
      → owns f r ≡ true
      → Ready slot r rest n s
      → (t : Sys) × (dispatch_to_provider c f s ≡ (settled_delivered, t))
        × (t.sent ≡ suc n)
        × StatusAt delivered slot t
  unfolding dispatch_to_provider settle_sent acknowledge provider_send
  dispatch-Ready f r s o h =
      let u : Sys = record s { sends = rest; sent = suc s.sent } in
      let q : QuietAt slot r s.db_now u = record { nobody = h.nobody; row = h.row; clock = refl } in
      let e : (issue (ack_effect f) slot u).0 ≡ true =
        issue_quiet slot r s.db_now u (ack_effect f) q
        ∙ ack_written f u.ledger.minted s.db_now r o in
      let ok : (ack c f u).0 ≡ true = ack_quiet c 0 0 s.db_now f r u o q in
      (
        (ack c f u).1,
        ap (λ x. settle_sent c f (next_sent x s).0 (next_sent x s).1) h.sends ∙ rw ok refl,
        unfold ack in rw e (issue_sent (ack_effect f) u h.nobody ∙ ap suc h.sent),
        ack-StatusAt c f u ok,
      )

  proceed_settled :
      (job_id : Option ℕ) (deadline fuel : ℕ) (f : Fence) (d : Decision) (s t : Sys)
      → d ≡ proceed f
      → dispatch_to_provider c f s ≡ (settled_delivered, t)
      → begun_round c job_id deadline fuel (d, s) ≡ some (leave returned_delivered t)
  unfolding begun_round act settlement_round
  proceed_settled job_id deadline fuel f d s t e h =
      rw e (ap (λ x. some (settlement_round c job_id deadline x)) h)

  loop-Ready :
      (job_id : Option ℕ) (deadline fuel : ℕ) (s : Sys) (r : Row)
      → r.status ≡ pending
      → Ready slot r rest n s
      → (t : Sys) × (effect_loop c job_id deadline (suc fuel) s ≡ some (returned_delivered, t))
        × (t.sent ≡ suc n)
        × StatusAt delivered slot t
  unfolding effect_loop effect_round
  loop-Ready job_id deadline fuel s r p h =
      let (f, r', e, o, h') = begin-Ready s r p h in
      let (t, d, k, st) = dispatch-Ready f r' (begin c s).1 o h' in
      (
        t,
        ap
            (λ o. elim o [
              | none ↦ none
              | some (leave v u) ↦ some (v, u)
              | some (again u) ↦ effect_loop c job_id deadline fuel u
            ])
            (proceed_settled job_id deadline fuel f (begin c s).0 (begin c s).1 t e d),
        k,
        st,
      )

-- A fresh effect, absent or pending, whose dispatch the provider acknowledges while nobody else interferes: `run_effect_once` returns `delivered` after
-- asking the provider exactly once, and the row is delivered.
pub acknowledged_delivers :
    (c : Caller) (job_id : Option ℕ) (fuel : ℕ) (s : Sys) (rest : List Sent)
    → s.others ≡ []
    → IsFresh (s.ledger.rows c.slot)
    → s.sends ≡ acknowledged ∷ rest
    → (t : Sys) × (run_protocol (suc fuel) c job_id s ≡ some (returned_delivered, t))
      × (t.sent ≡ suc s.sent)
      × StatusAt delivered c.slot t
unfolding run_protocol
acknowledged_delivers c job_id fuel s rest quiet fresh will =
    let (r, e, p) = fresh_row job_id (s.ledger.rows c.slot) fresh in
    loop-Ready c rest s.sent job_id (s.loop_now + budget c.lease) fuel (intend c job_id s) r p
      (intend-Ready c rest s.sent job_id s r quiet e will refl)
