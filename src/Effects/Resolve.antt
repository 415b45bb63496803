-- ===== src/Effects/Resolve.antt =====
-- `_resolve_dispatching` of map-business-backend/app/workers/job_runner.py, round by round.
use map.Effects.World.{
  Answer, Sys, issue, snapshot, Decision, decide, Caller, adopt, ack, confirm, provider_query, poll,
  confirmed, absent, proceed, already_delivered, already_uncertain, timeout, is_dispatching,
}
use map.Base.{String, ℕ, zero, suc, Option, none, some, if◌then◌else◌}
use map.Effects.{Fence, Snapshot, mark_uncertain}

abbrev pub outcome_unknown : String
outcome_unknown =
    "dispatch outcome unknown: provider cannot confirm by idempotency key and the dispatch lease expired"

-- One round of a `while True`: its result, or `continue`.
pub data Round (A : Type 0) : Type 0 where
  leave : A → Sys → Round A
  again : Sys → Round A

module _ (c : Caller) (deadline : ℕ) where
  open c use {slot, owner, attempt, lease}

  -- After a takeover: the provider's fact once more, acted on under the new fence.
  unfoldable pub settle_adopted : Fence → Answer → Sys → Round Decision
  unfolding ack issue
  settle_adopted fence confirmed s =
      let (ok, t) = ack c fence s in if ok then leave already_delivered t else again t
  settle_adopted fence absent s = leave (proceed fence) s
  settle_adopted fence _ s =
      let (ok, t) = issue (mark_uncertain fence (some outcome_unknown)) slot s in
      if ok then leave already_uncertain t else again t

  unfoldable pub after_adopt : Option Fence → Sys → Round Decision
  unfolding settle_adopted provider_query
  after_adopt none s = again s
  after_adopt (some fence) s = let (a, t) = provider_query s in settle_adopted fence a t

  unfoldable pub unconfirmed_round : Snapshot → Sys → Round Decision
  unfolding poll adopt after_adopt
  unconfirmed_round o s =
      let (more, t) = poll deadline s in
      let (fence, t') = adopt c o s in
      if o.lease_alive then (if more then again t else leave timeout t) else after_adopt fence t'

  unfoldable pub answered_round : Snapshot → Answer → Sys → Round Decision
  unfolding confirm unconfirmed_round
  answered_round o confirmed s =
      let (ok, t) = confirm c o s in if ok then leave already_delivered t else again t
  answered_round o _ s = unconfirmed_round o s

  unfoldable pub decided_round : Snapshot → Decision → Sys → Round Decision
  unfolding provider_query answered_round
  decided_round o (is_dispatching _) s = let (a, t) = provider_query s in answered_round o a t
  decided_round o d s = leave d s

  -- One round of `_resolve_dispatching`.
  unfoldable pub resolve_round : Sys → Round Decision
  unfolding snapshot decide decided_round
  resolve_round s = let (o, t) = snapshot slot s in decided_round o (decide o o.status) t

  -- `_resolve_dispatching`; `none` when the fuel is spent.
  unfoldable pub resolve : ℕ → Sys → Option Decision × Sys
  unfolding resolve_round
  resolve zero s = (none, s)
  resolve (suc fuel) s = elim (resolve_round s) [
    | leave d t ↦ (some d, t)
    | again t ↦ resolve fuel t
  ]
