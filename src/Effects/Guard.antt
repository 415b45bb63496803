-- ===== src/Effects/Guard.antt =====
-- `_settle_unconfirmed`, `_dispatch_to_provider` and `run_effect_once` of map-business-backend/app/workers/job_runner.py.
use map.Effects.World.{
  Answer, Sent, Sys, issue, Decision, Caller, begin, ack, provider_query, provider_send, poll,
  confirmed, acknowledged, unconfirmed, failed, proceed, already_delivered, already_uncertain,
  retry, timeout, is_dispatching,
}
use map.Effects.Resolve.{Round, leave, again, resolve}
use Prim.Native.Char.{code}
use Prim.Native.String.{◌++◌}
use Prim.Native.Nat.{max}
use map.Base.{
  ℕ, zero, suc, ◌+◌, ◌*◌, String, Bool, true, false, ◌&&◌, ◌||◌, Option, none, some, leb, ◌==◌,
  if◌then◌else◌,
}
use map.Effects.{Fence, record_intent, mark_uncertain, clip}

-- `_Settlement`
pub data Settlement : Type 0 where
  settled_delivered lost_fence : Settlement
  settled_uncertain : String → Settlement

module _ (c : Caller) (fence : Fence) where
  open c use {slot}

  unfoldable pub fail_closed : String → Sys → Settlement × Sys
  unfolding issue
  fail_closed reason s =
      let (ok, t) = issue (mark_uncertain fence (some (clip 2000 reason))) slot s in
      if ok then (settled_uncertain reason, t) else (lost_fence, t)

  unfoldable pub acknowledge : Sys → Settlement × Sys
  unfolding ack
  acknowledge s =
      let (ok, t) = ack c fence s in if ok then (settled_delivered, t) else (lost_fence, t)

  -- `_settle_unconfirmed`
  unfoldable pub settle_unconfirmed : String → Answer → Sys → Settlement × Sys
  unfolding fail_closed acknowledge
  settle_unconfirmed reason confirmed s = acknowledge s
  settle_unconfirmed reason _ s = fail_closed reason s

  unfoldable pub settle_sent : Sent → Sys → Settlement × Sys
  unfolding acknowledge settle_unconfirmed provider_query
  settle_sent acknowledged s = acknowledge s
  settle_sent unconfirmed s =
      let (a, t) = provider_query s in settle_unconfirmed "provider returned unknown/timeout" a t
  settle_sent (failed exc) s =
      let (a, t) = provider_query s in settle_unconfirmed ("provider error: " ++ exc) a t

  -- `_dispatch_to_provider`
  unfoldable pub dispatch_to_provider : Sys → Settlement × Sys
  unfolding provider_send settle_sent
  dispatch_to_provider s = let (a, t) = provider_send s in settle_sent a t

-- `EffectUncertainError`, by the place that raises it.
pub data Uncertain : Type 0 where
  terminal_state still_held kept_reverting superseded : Uncertain
  unconfirmed_outcome : String → Uncertain

pub data Verdict : Type 0 where
  returned_delivered : Verdict
  raised : Uncertain → Verdict
  runtime_error : Verdict

-- `record_intent`
unfoldable pub intend : Caller → Option ℕ → Sys → Sys
unfolding issue
intend c job_id s = (issue (record_intent job_id) c.slot s).1

module _ (c : Caller) (job_id : Option ℕ) (deadline : ℕ) where
  unfoldable pub retry_round : Bool × Sys → Round Verdict
  unfolding intend
  retry_round (true, s) = again (intend c job_id s)
  retry_round (false, s) = leave (raised kept_reverting) s

  unfoldable pub lost_round : Bool × Sys → Round Verdict
  lost_round (true, s) = again s
  lost_round (false, s) = leave (raised superseded) s

  unfoldable pub settlement_round : Settlement × Sys → Round Verdict
  unfolding lost_round poll
  settlement_round (settled_delivered, s) = leave returned_delivered s
  settlement_round (settled_uncertain reason, s) = leave (raised (unconfirmed_outcome reason)) s
  settlement_round (lost_fence, s) = lost_round (poll deadline s)

  -- The round after the decision; a `dispatching` that was not resolved has no fence.
  unfoldable pub act : Decision → Sys → Round Verdict
  unfolding retry_round settlement_round dispatch_to_provider poll
  act (proceed fence) s = settlement_round (dispatch_to_provider c fence s)
  act already_delivered s = leave returned_delivered s
  act already_uncertain s = leave (raised terminal_state) s
  act timeout s = leave (raised still_held) s
  act retry s = retry_round (poll deadline s)
  act (is_dispatching o) s = leave runtime_error s

  unfoldable pub resolved_round : Option Decision × Sys → Option (Round Verdict)
  unfolding act
  resolved_round (none, s) = none
  resolved_round (some d, s) = some (act d s)

  -- One round of `run_effect_once`; `none` when the inner loop has no fuel left.
  unfoldable pub begun_round : ℕ → Decision × Sys → Option (Round Verdict)
  unfolding resolve resolved_round act
  begun_round fuel (is_dispatching o, s) = resolved_round (resolve c deadline fuel s)
  begun_round fuel (d, s) = some (act d s)

  unfoldable pub effect_round : ℕ → Sys → Option (Round Verdict)
  unfolding begin begun_round
  effect_round fuel s = begun_round fuel (begin c s)

  unfoldable pub effect_loop : ℕ → Sys → Option (Verdict × Sys)
  unfolding effect_round
  effect_loop zero s = none
  effect_loop (suc fuel) s = elim (effect_round fuel s) [
    | none ↦ none
    | some (leave v t) ↦ some (v, t)
    | some (again t) ↦ effect_loop fuel t
  ]

-- `run_effect_once`, whose budget is three leases and 30 seconds at least.
unfoldable pub budget : ℕ → ℕ
budget lease = max 30_000_000 (lease * 3)

-- `run_effect_once` after the key and the caller are settled: record the intent, then the loop.
unfoldable pub run_protocol : ℕ → Caller → Option ℕ → Sys → Option (Verdict × Sys)
unfolding budget intend effect_loop
run_protocol fuel c job_id s =
    effect_loop c job_id (s.loop_now + budget c.lease) fuel (intend c job_id s)

-- The characters that `str.strip` takes away.
unfoldable pub is_space : ℕ → Bool
is_space c =
    (leb 9 c && leb c 13)
    || ((leb 28 c && leb c 32)
        || (c == 133
            || (c == 160
                || (c == 5760
                    || ((leb 8192 c && leb c 8202)
                        || (c == 8232
                            || (c == 8233 || (c == 8239 || (c == 8287 || c == 12288)))))))))

unfoldable pub is_blank : String → Bool
unfolding is_space
is_blank String.[] = true
is_blank (String.◌∷◌ c text) = is_space (code c) && is_blank text

-- `_require_key`; `none` is the ValueError.
unfoldable pub require_key : Option String → Option String
unfolding is_blank
require_key none = none
require_key (some key) = if is_blank key then none else some key

-- The job context, and the defaults that it gives. Worker ids are numbers; 0 is `unknown-worker`.
pub record Context : Type 0 where
  pub worker_id : ℕ
  pub attempt : ℕ

abbrev pub unknown_worker : ℕ
unknown_worker = 0

unfoldable pub owner_or : Option ℕ → Option Context → ℕ
owner_or (some owner) ctx = owner
owner_or none (some ctx) = ctx.worker_id
owner_or none none = unknown_worker

unfoldable pub attempt_or : Option ℕ → Option Context → ℕ
attempt_or (some attempt) ctx = attempt
attempt_or none (some ctx) = ctx.attempt
attempt_or none none = 0

pub data Reply : Type 0 where
  value_error : Reply
  ended_with : Verdict → Sys → Reply
  out_of_fuel : Reply

abbrev pub reply_of : Option (Verdict × Sys) → Reply
reply_of none = out_of_fuel
reply_of (some (v, s)) = ended_with v s

unfoldable pub run_with_key : ℕ → Option String → ℕ → ℕ → ℕ → ℕ → Option ℕ → Sys → Reply
unfolding run_protocol
run_with_key fuel none workspace_id owner attempt lease job_id s = value_error
run_with_key fuel (some key) workspace_id owner attempt lease job_id s = reply_of (
    run_protocol fuel
      (record {
        slot = record { workspace_id = workspace_id; effect_key = key };
        owner = owner;
        attempt = attempt;
        lease = lease;
      })
      job_id s)

unfoldable pub run_effect_once :
    ℕ → Option Context → Option String → ℕ → Option ℕ → Option ℕ → Option ℕ → ℕ → Sys → Reply
unfolding require_key owner_or attempt_or run_with_key
run_effect_once fuel ctx key workspace_id job_id owner attempt lease s =
    run_with_key fuel (require_key key) workspace_id (owner_or owner ctx) (attempt_or attempt ctx)
      lease job_id s
