-- ===== src/Effects/Delivery.antt =====
-- What the ledger holds when `run_effect_once` of job_runner.py returns or raises, whatever other callers
-- execute between its statements and whatever the provider answers.
use map.Effects.Decisions.{
  StatusAt, DecisionMeans, uncertain-ended, ack-StatusAt, begin-Means, ResultMeans, resolve-Means,
}
use Prim.Native.String.{◌++◌}
use map.Base.{
  ℕ, zero, suc, ◌+◌, Bool, true, false, ◌≡◌, refl, subst, Option, none, some, if◌then◌else◌, String,
}
use map.Effects.{delivered, uncertain, Fence, Slot, mark_uncertain, clip}
use map.Effects.World.{
  Sys, Answer, confirmed, absent, unknown, broken, Sent, acknowledged, unconfirmed, failed, Caller,
  Decision, proceed, already_delivered, already_uncertain, retry, timeout, is_dispatching, issue,
  begin, ack, provider_query, provider_send, poll,
}
use map.Effects.Resolve.{Round, leave, again, resolve}
use map.Effects.Guard.{
  Settlement, settled_delivered, lost_fence, settled_uncertain, fail_closed, acknowledge,
  settle_unconfirmed, settle_sent, dispatch_to_provider, terminal_state, unconfirmed_outcome,
  Verdict, returned_delivered, raised, intend, retry_round, lost_round, settlement_round, act,
  resolved_round, begun_round, effect_round, effect_loop, run_protocol, budget,
}

-- What the caller may conclude from the outcome.
abbrev pub VerdictMeans : Slot → Verdict → Sys → Type 0
VerdictMeans slot returned_delivered s = StatusAt delivered slot s
VerdictMeans slot (raised terminal_state) s = StatusAt uncertain slot s
VerdictMeans slot (raised (unconfirmed_outcome reason)) s = StatusAt uncertain slot s
VerdictMeans slot _ s = Unit

abbrev VerdictRound : Slot → Round Verdict → Type 0
VerdictRound slot (leave v s) = VerdictMeans slot v s
VerdictRound slot (again s) = Unit

abbrev SettlementMeans : Slot → Settlement × Sys → Type 0
SettlementMeans slot (settled_delivered, s) = StatusAt delivered slot s
SettlementMeans slot (settled_uncertain reason, s) = StatusAt uncertain slot s
SettlementMeans slot (lost_fence, s) = Unit

settled_if :
    (slot : Slot) (x : Settlement) (t : Sys) (b : Bool)
    → (b ≡ true → SettlementMeans slot (x, t))
    → SettlementMeans slot (if b then (x, t) else (lost_fence, t))
settled_if slot x t true h = h refl
settled_if slot x t false h = tt

module _ (c : Caller) (f : Fence) where
  open c use {slot}

  fail_closed-Means : (reason : String) (s : Sys) → SettlementMeans slot (fail_closed c f reason s)
  unfolding fail_closed
  fail_closed-Means reason s =
      settled_if slot (settled_uncertain reason)
        (issue (mark_uncertain f (some (clip 2000 reason))) slot s).1
        (issue (mark_uncertain f (some (clip 2000 reason))) slot s).0
        (uncertain-ended f (some (clip 2000 reason)) slot s)

  acknowledge-Means : (s : Sys) → SettlementMeans slot (acknowledge c f s)
  unfolding acknowledge
  acknowledge-Means s =
      settled_if slot settled_delivered (ack c f s).1 (ack c f s).0 (ack-StatusAt c f s)

  settle_unconfirmed-Means :
      (reason : String) (a : Answer) (s : Sys)
      → SettlementMeans slot (settle_unconfirmed c f reason a s)
  unfolding settle_unconfirmed
  settle_unconfirmed-Means reason confirmed s = acknowledge-Means s
  settle_unconfirmed-Means reason absent s = fail_closed-Means reason s
  settle_unconfirmed-Means reason unknown s = fail_closed-Means reason s
  settle_unconfirmed-Means reason broken s = fail_closed-Means reason s

  settle_sent-Means : (a : Sent) (s : Sys) → SettlementMeans slot (settle_sent c f a s)
  unfolding settle_sent
  settle_sent-Means acknowledged s = acknowledge-Means s
  settle_sent-Means unconfirmed s =
      settle_unconfirmed-Means "provider returned unknown/timeout" (provider_query s).0
        (provider_query s).1
  settle_sent-Means (failed exc) s =
      settle_unconfirmed-Means ("provider error: " ++ exc) (provider_query s).0 (provider_query s).1

  dispatch_to_provider-Means : (s : Sys) → SettlementMeans slot (dispatch_to_provider c f s)
  unfolding dispatch_to_provider
  dispatch_to_provider-Means s = settle_sent-Means (provider_send s).0 (provider_send s).1

module _ (c : Caller) (job_id : Option ℕ) (deadline : ℕ) where
  open c use {slot}

  lost_round-Means : (r : Bool × Sys) → VerdictRound slot (lost_round c job_id deadline r)
  unfolding lost_round
  lost_round-Means (true, s) = tt
  lost_round-Means (false, s) = tt

  retry_round-Means : (r : Bool × Sys) → VerdictRound slot (retry_round c job_id deadline r)
  unfolding retry_round
  retry_round-Means (true, s) = tt
  retry_round-Means (false, s) = tt

  settlement_round-Means :
      (r : Settlement × Sys)
      → SettlementMeans slot r
      → VerdictRound slot (settlement_round c job_id deadline r)
  unfolding settlement_round
  settlement_round-Means (settled_delivered, s) h = h
  settlement_round-Means (settled_uncertain reason, s) h = h
  settlement_round-Means (lost_fence, s) h = lost_round-Means (poll deadline s)

  act-Means :
      (d : Decision) (s : Sys)
      → DecisionMeans slot d s
      → VerdictRound slot (act c job_id deadline d s)
  unfolding act
  act-Means (proceed f) s h =
      settlement_round-Means (dispatch_to_provider c f s) (dispatch_to_provider-Means c f s)
  act-Means already_delivered s h = h
  act-Means already_uncertain s h = h
  act-Means timeout s h = tt
  act-Means retry s h = retry_round-Means (poll deadline s)
  act-Means (is_dispatching o) s h = tt

  abbrev RoundOption : Option (Round Verdict) → Type 0
  RoundOption none = Unit
  RoundOption (some r) = VerdictRound slot r

  resolved_round-Means :
      (r : Option Decision × Sys)
      → ResultMeans c deadline r
      → RoundOption (resolved_round c job_id deadline r)
  unfolding resolved_round
  resolved_round-Means (none, s) h = tt
  resolved_round-Means (some d, s) h = act-Means d s h

  begun_round-Means :
      (fuel : ℕ) (r : Decision × Sys)
      → DecisionMeans slot r.0 r.1
      → RoundOption (begun_round c job_id deadline fuel r)
  unfolding begun_round
  begun_round-Means fuel (is_dispatching o, s) h =
      resolved_round-Means (resolve c deadline fuel s) (resolve-Means c deadline fuel s)
  begun_round-Means fuel (proceed f, s) h = act-Means (proceed f) s h
  begun_round-Means fuel (already_delivered, s) h = h
  begun_round-Means fuel (already_uncertain, s) h = h
  begun_round-Means fuel (retry, s) h = act-Means retry s h
  begun_round-Means fuel (timeout, s) h = tt

  abbrev LoopMeans : Option (Verdict × Sys) → Type 0
  LoopMeans none = Unit
  LoopMeans (some (v, t)) = VerdictMeans slot v t

  effect_loop-Means : (fuel : ℕ) (s : Sys) → LoopMeans (effect_loop c job_id deadline fuel s)
  unfolding effect_loop effect_round
  effect_loop-Means zero s = tt
  effect_loop-Means (suc fuel) s =
      go (effect_loop-Means fuel) (effect_round c job_id deadline fuel s)
        (begun_round-Means fuel (begin c s) (begin-Means c s))
    where
      go :
          ((t : Sys) → LoopMeans (effect_loop c job_id deadline fuel t))
          → (r : Option (Round Verdict)) → RoundOption r
          → LoopMeans (elim r [
            | none ↦ none
            | some (leave v t) ↦ some (v, t)
            | some (again t) ↦ effect_loop c job_id deadline fuel t
          ])
      go ih none h = tt
      go ih (some (leave v t)) h = h
      go ih (some (again t)) h = ih t

-- Whatever other callers execute between the statements, whatever the provider answers: when `run_effect_once` returns `delivered` the
-- ledger's row of the key is delivered, and when it raises because the outcome is uncertain (the row was, or the provider did not confirm) the
-- row is uncertain. (The other errors claim nothing of the row.)
pub run_protocol-Means :
    (fuel : ℕ) (c : Caller) (job_id : Option ℕ) (s : Sys) {v : Verdict} {t : Sys}
    → run_protocol fuel c job_id s ≡ some (v, t)
    → VerdictMeans c.slot v t
unfolding run_protocol
run_protocol-Means fuel c job_id s h =
    subst (LoopMeans c job_id (s.loop_now + budget c.lease)) h
      (effect_loop-Means c job_id (s.loop_now + budget c.lease) fuel (intend c job_id s))
