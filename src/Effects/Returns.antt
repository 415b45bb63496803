-- ===== src/Effects/Returns.antt =====
-- The loops of `run_effect_once` (map-business-backend/app/workers/job_runner.py) and their fuel.
use map.Base.{
  ℕ, zero, suc, ◌+◌, ◌-◌, ◌<◌, true, ◌≡◌, refl, sym, subst, Option, none, some, [], length, arith,
  Bool-cases, inl, inr,
}
use map.Effects.{record_intent}
use map.Effects.World.{
  Sys, interfere, Caller, begin, poll, Decision, proceed, already_delivered, already_uncertain,
  retry, timeout, is_dispatching,
}
use map.Effects.Resolve.{Round, leave, again, resolve_round, resolve}
use map.Effects.Guard.{
  Settlement, settled_delivered, lost_fence, settled_uncertain, dispatch_to_provider, Verdict,
  intend, retry_round, lost_round, settlement_round, act, resolved_round, begun_round, effect_round,
  effect_loop, budget, run_protocol,
}
use map.Effects.Methods.{
  Onward, Onward-refl, Onward-trans, interfere-fewer, interfere-Onward, issue-Onward, begin-Onward,
  poll-Onward, poll-nearer,
}
use map.Effects.Onward.{dispatch_to_provider-Onward, end_of, resolve_round-after}
use map.Effects.Held.{Nearer}
use map.Effects.Quiet.{resolve_round-Nearer}

-- What is left of other callers' statements and of the time.
abbrev load : ℕ → Sys → ℕ
load deadline s = length s.others + (deadline - s.loop_now)

abbrev Shrinks : {A : Type 0} → ℕ → Sys → Round A → Type 0
Shrinks deadline s (leave a t) = Onward s t
Shrinks deadline s (again t) = Onward s t × (load deadline t < load deadline s)

module _ (c : Caller) (deadline : ℕ) where
  shrink :
      (s : Sys) (r : Round Decision)
      → Onward (interfere s) (end_of r)
      → (s.others ≡ [] → Nearer deadline (deadline - s.loop_now) r)
      → Shrinks deadline s r
  shrink s (leave d t) on near = Onward-trans (interfere-Onward s) on
  shrink s (again t) on near =
      let whole = Onward-trans (interfere-Onward s) on in
      let later = whole.later in
      let fewer = whole.fewer in
      (
        whole,
        elim (interfere-fewer s) [
          | inl h ↦ let n = near h in omega arith
          | inr h ↦ let f = on.fewer in omega arith
        ],
      )

  resolve_round-Shrinks : (s : Sys) → Shrinks deadline s (resolve_round c deadline s)
  resolve_round-Shrinks s =
      shrink s (resolve_round c deadline s) (resolve_round-after c deadline s)
        (resolve_round-Nearer c deadline s)

  abbrev Resolved : Sys → Option Decision × Sys → Type 0
  Resolved s r = (d : Decision) × (t : Sys) × (r ≡ (some d, t)) × Onward s t

  -- `_resolve_dispatching` returns.
  resolve-Resolved :
      (fuel : ℕ) (s : Sys) → load deadline s < fuel → Resolved s (resolve c deadline fuel s)
  unfolding resolve
  resolve-Resolved zero s h = absurd (omega arith)
  resolve-Resolved (suc fuel) s h =
      go (resolve-Resolved fuel) (resolve_round c deadline s) (resolve_round-Shrinks s)
    where
      go :
          ((t : Sys) → load deadline t < fuel → Resolved t (resolve c deadline fuel t))
          → (r : Round Decision) → Shrinks deadline s r
          → Resolved s (elim r [ leave d t ↦ (some d, t) | again t ↦ resolve c deadline fuel t ])
      go rest (leave d t) on = (d, t, refl, on)
      go rest (again t) (on, less) =
          let (d, u, e, on') = rest t (omega arith) in (d, u, e, Onward-trans on on')

module _ (c : Caller) (job_id : Option ℕ) (deadline : ℕ) where
  intend-Onward : (s : Sys) → Onward s (intend c job_id s)
  unfolding intend
  intend-Onward s = issue-Onward (record_intent job_id) c.slot s

  polled :
      (s : Sys)
      → (poll deadline s).0 ≡ true
      → Onward s (poll deadline s).1 × (load deadline (poll deadline s).1 < load deadline s)
  polled s h =
      let on = poll-Onward deadline s in
      let near = poll-nearer deadline s h in let f = on.fewer in (on, omega arith)

  Onward-less :
      {s t u : Sys}
      → Onward s t × (load deadline t < load deadline s)
      → Onward t u
      → Onward s u × (load deadline u < load deadline s)
  Onward-less (on, less) on' =
      let f = on'.fewer in let l = on'.later in (Onward-trans on on', omega arith)

  retry_round-Shrinks :
      (s : Sys) → Shrinks deadline s (retry_round c job_id deadline (poll deadline s))
  unfolding retry_round
  retry_round-Shrinks s = elim (Bool-cases (poll deadline s).0) [
    | inl e ↦ rw e (Onward-less (polled s e) (intend-Onward (poll deadline s).1))
    | inr e ↦ rw e (poll-Onward deadline s)
  ]

  lost_round-Shrinks :
      (s : Sys) → Shrinks deadline s (lost_round c job_id deadline (poll deadline s))
  unfolding lost_round
  lost_round-Shrinks s = elim (Bool-cases (poll deadline s).0) [
    | inl e ↦ rw e (polled s e)
    | inr e ↦ rw e (poll-Onward deadline s)
  ]

  earlier :
      {s t : Sys} → Onward s t → (r : Round Verdict) → Shrinks deadline t r → Shrinks deadline s r
  earlier on (leave v u) on' = Onward-trans on on'
  earlier on (again u) (on', less) =
      let f = on.fewer in let l = on.later in (Onward-trans on on', omega arith)

  settlement_round-Shrinks :
      (x : Settlement) (s : Sys) → Shrinks deadline s (settlement_round c job_id deadline (x, s))
  unfolding settlement_round
  settlement_round-Shrinks settled_delivered s = Onward-refl s
  settlement_round-Shrinks (settled_uncertain reason) s = Onward-refl s
  settlement_round-Shrinks lost_fence s = lost_round-Shrinks s

  act-Shrinks : (d : Decision) (s : Sys) → Shrinks deadline s (act c job_id deadline d s)
  unfolding act
  act-Shrinks (proceed f) s =
      earlier (dispatch_to_provider-Onward c f s) _
        (settlement_round-Shrinks (dispatch_to_provider c f s).0 (dispatch_to_provider c f s).1)
  act-Shrinks already_delivered s = Onward-refl s
  act-Shrinks already_uncertain s = Onward-refl s
  act-Shrinks timeout s = Onward-refl s
  act-Shrinks retry s = retry_round-Shrinks s
  act-Shrinks (is_dispatching o) s = Onward-refl s

  abbrev RoundReturns : Sys → Option (Round Verdict) → Type 0
  RoundReturns s o = (r : Round Verdict) × (o ≡ some r) × Shrinks deadline s r

  begun_round-Returns :
      (fuel : ℕ) (d : Decision) (s : Sys)
      → load deadline s < fuel
      → RoundReturns s (begun_round c job_id deadline fuel (d, s))
  unfolding begun_round resolved_round
  begun_round-Returns fuel (is_dispatching o) s h =
      let (d, t, e, on) = resolve-Resolved c deadline fuel s h in
      (act c job_id deadline d t, rw e refl, earlier on _ (act-Shrinks d t))
  begun_round-Returns fuel (proceed f) s h = (_, refl, act-Shrinks (proceed f) s)
  begun_round-Returns fuel already_delivered s h = (_, refl, act-Shrinks already_delivered s)
  begun_round-Returns fuel already_uncertain s h = (_, refl, act-Shrinks already_uncertain s)
  begun_round-Returns fuel retry s h = (_, refl, act-Shrinks retry s)
  begun_round-Returns fuel timeout s h = (_, refl, act-Shrinks timeout s)

  effect_round-Returns :
      (fuel : ℕ) (s : Sys)
      → load deadline s < fuel
      → RoundReturns s (effect_round c job_id deadline fuel s)
  unfolding effect_round
  effect_round-Returns fuel s h =
      let on = begin-Onward c s in
      let f = on.fewer in
      let l = on.later in
      let (r, e, sh) = begun_round-Returns fuel (begin c s).0 (begin c s).1 (omega arith) in
      (r, e, earlier on r sh)

  abbrev LoopReturns : Option (Verdict × Sys) → Type 0
  LoopReturns o = (v : Verdict) × (t : Sys) × (o ≡ some (v, t))

  effect_loop-Returns :
      (fuel : ℕ) (s : Sys)
      → load deadline s < fuel
      → LoopReturns (effect_loop c job_id deadline (suc fuel) s)
  unfolding effect_loop
  effect_loop-Returns zero s h = absurd (omega arith)
  effect_loop-Returns (suc fuel) s h =
      let (r, e, sh) = effect_round-Returns (suc fuel) s h in
      subst
        (λ o. LoopReturns (elim o [
          | none ↦ none
          | some (leave v t) ↦ some (v, t)
          | some (again t) ↦ effect_loop c job_id deadline (suc fuel) t
        ]))
        (sym e) (go (effect_loop-Returns fuel) r sh)
    where
      go :
          ((t : Sys)
            → load deadline t < fuel
            → LoopReturns (effect_loop c job_id deadline (suc fuel) t))
          → (r : Round Verdict) → Shrinks deadline s r
          → LoopReturns (elim r [
            | leave v t ↦ some (v, t)
            | again t ↦ effect_loop c job_id deadline (suc fuel) t
          ])
      go rest (leave v t) on = (v, t, refl)
      go rest (again t) (on, less) = rest t (omega arith)

-- `run_effect_once` comes to an end with a result, whatever the provider answers and whatever finite sequence of statements other callers execute:
-- fuel above the number of those interferences plus the budget in microseconds, and one more, is enough.
pub run_protocol_returns :
    (c : Caller) (job_id : Option ℕ) (s : Sys) (fuel : ℕ)
    → length s.others + budget c.lease < fuel
    → (v : Verdict) × (t : Sys) × (run_protocol (suc fuel) c job_id s ≡ some (v, t))
unfolding run_protocol
run_protocol_returns c job_id s fuel h =
    let on = intend-Onward c job_id (s.loop_now + budget c.lease) s in
    let f = on.fewer in
    let l = on.later in
    effect_loop-Returns c job_id (s.loop_now + budget c.lease) fuel (intend c job_id s)
      (omega arith)
