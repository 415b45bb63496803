-- ===== src/Effects/World.antt =====
-- The world of one call of `EffectGuard` (map-business-backend/app/workers/job_runner.py): the ledger, the clocks, what other callers
-- execute before each of its statements (`others`), and the provider, which is not part of the program, as the list of its answers;
-- and the guard's statements in it.
use Prim.Native.Nat.{min}
use map.Base.{
  ℕ, suc, ◌+◌, ◌-◌, String, Bool, true, false, Option, none, some, List, [], ◌∷◌, ◌==◌,
  if◌then◌else◌,
}
use map.Effects.{
  EffectStatus, pending, dispatching, delivered, uncertain, is_delivered, Fence, Snapshot, Slot,
  Ledger, Statement, begin_dispatch, adopt_dispatch, ack_effect, confirm_provider_fact, mint,
  execute, snapshot_row,
}

-- What `query` returns: delivered, never received, None, or an exception; and `send`: confirmed, not confirmed, or an exception.
pub data Answer : Type 0 where
  confirmed absent unknown broken : Answer

pub data Sent : Type 0 where
  acknowledged unconfirmed : Sent
  failed : String → Sent

pub data Event : Type 0 where
  runs : Statement → Slot → Event
  passes : ℕ → Event

pub record Sys : Type 0 where
  pub ledger : Ledger
  pub db_now : ℕ
  pub loop_now : ℕ
  pub others : List (List Event)
  pub queries : List Answer
  pub sends : List Sent
  -- how often the provider was asked to act
  pub sent : ℕ

unfoldable pub happen : Event → Sys → Sys
unfolding execute
happen (runs st slot) s = record s { ledger = (execute st slot s.db_now s.ledger).0 }
happen (passes n) s = record s { db_now = s.db_now + n }

unfoldable pub happen_all : List Event → Sys → Sys
unfolding happen
happen_all [] s = s
happen_all (e ∷ es) s = happen_all es (happen e s)

unfoldable pub interfere_with : List (List Event) → Sys → Sys
unfolding happen_all
interfere_with [] s = s
interfere_with (es ∷ rest) s = happen_all es (record s { others = rest })

unfoldable pub interfere : Sys → Sys
unfolding interfere_with
interfere s = interfere_with s.others s

-- One statement of ours, after the others'.
abbrev pub issued : Statement → Slot → Sys → Bool × Sys
issued st slot s = let (l, ok) = execute st slot s.db_now s.ledger in (ok, record s { ledger = l })

unfoldable pub issue : Statement → Slot → Sys → Bool × Sys
unfolding interfere
issue st slot s = issued st slot (interfere s)

unfoldable pub snapshot : Slot → Sys → Snapshot × Sys
unfolding interfere snapshot_row
snapshot slot s = let t = interfere s in (snapshot_row t.db_now (t.ledger.rows slot), t)

abbrev pub shows_delivered : Option EffectStatus → Bool
shows_delivered none = false
shows_delivered (some st) = is_delivered st

-- `state_of(...) == EFFECT_DELIVERED`, which is also `has_effect`
unfoldable pub has_effect : Slot → Sys → Bool × Sys
unfolding snapshot
has_effect slot s = let (o, t) = snapshot slot s in (shows_delivered o.status, t)

-- `DispatchOutcome`; a `proceed` carries its fence.
pub data Decision : Type 0 where
  proceed : Fence → Decision
  already_delivered already_uncertain retry timeout : Decision
  is_dispatching : Snapshot → Decision

unfoldable pub decide : Snapshot → Option EffectStatus → Decision
decide o none = retry
decide o (some pending) = retry
decide o (some dispatching) = is_dispatching o
decide o (some delivered) = already_delivered
decide o (some uncertain) = already_uncertain

pub record Caller : Type 0 where
  pub slot : Slot
  pub owner : ℕ
  pub attempt : ℕ
  pub lease : ℕ

module _ (c : Caller) where
  open c use {slot, owner, attempt, lease}

  -- `begin_dispatch`
  unfoldable pub begin : Sys → Decision × Sys
  unfolding interfere snapshot decide
  begin s =
      let t = interfere s in
      let (ok, t') = issued (begin_dispatch owner attempt lease) slot t in
      let (o, t'') = snapshot slot t' in
      if ok then (proceed (mint t.ledger owner attempt), t') else (decide o o.status, t'')

  -- `adopt_dispatch`
  unfoldable pub adopt : Snapshot → Sys → Option Fence × Sys
  unfolding interfere
  adopt observed s =
      let t = interfere s in
      let (ok, t') = issued (adopt_dispatch observed owner attempt lease) slot t in
      if ok then (some (mint t.ledger owner attempt), t') else (none, t')

  -- `ack_effect`
  unfoldable pub ack : Fence → Sys → Bool × Sys
  unfolding issue has_effect
  ack fence s =
      let (ok, t) = issue (ack_effect fence) slot s in if ok then (true, t) else has_effect slot t

  -- `confirm_provider_fact`
  unfoldable pub confirm : Snapshot → Sys → Bool × Sys
  unfolding issue has_effect
  confirm observed s =
      let (ok, t) = issue (confirm_provider_fact observed) slot s in
      if ok then (true, t) else has_effect slot t

-- `_provider_query`: a broken look-up degrades to unknown. A provider with no answer left knows nothing.
unfoldable pub next_answer : List Answer → Sys → Answer × Sys
next_answer [] s = (unknown, s)
next_answer (broken ∷ rest) s = (unknown, record s { queries = rest })
next_answer (a ∷ rest) s = (a, record s { queries = rest })

unfoldable pub provider_query : Sys → Answer × Sys
unfolding next_answer
provider_query s = next_answer s.queries s

unfoldable pub next_sent : List Sent → Sys → Sent × Sys
next_sent [] s = (unconfirmed, record s { sent = suc s.sent })
next_sent (a ∷ rest) s = (a, record s { sends = rest; sent = suc s.sent })

unfoldable pub provider_send : Sys → Sent × Sys
unfolding next_sent
provider_send s = next_sent s.sends s

-- `_RESOLVE_POLL_S`
abbrev pub resolve_poll : ℕ
resolve_poll = 50_000

-- `_poll`: sleep for one interval, or for what is left of the budget; false when it is spent.
unfoldable pub poll : ℕ → Sys → Bool × Sys
poll deadline s =
    let remaining = deadline - s.loop_now in
    let wait = min resolve_poll remaining in
    if remaining == 0
    then (false, s)
    else (true, record s { loop_now = s.loop_now + wait; db_now = s.db_now + wait })
