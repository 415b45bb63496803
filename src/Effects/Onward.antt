-- ===== src/Effects/Onward.antt =====
-- The settlements and rounds of `EffectGuard` (map-business-backend/app/workers/job_runner.py): what they use up of other callers'
-- statements and of the time.
use map.Effects.Methods.{
  Onward, Onward-refl, Onward-trans, issue-Onward, ack-Onward, confirm-Onward, adopt-Onward,
  provider_query-Onward, provider_send-Onward, poll-Onward,
}
use map.Base.{ℕ, String, Bool, true, false, inl, inr, Option, none, some, if◌then◌else◌, Bool-cases}
use Prim.Native.String.{◌++◌}
use map.Effects.{clip, mark_uncertain, Fence, Snapshot}
use map.Effects.World.{
  Sys, interfere, issue, snapshot, Caller, decide, adopt, ack, Answer, confirmed, absent, unknown,
  broken, provider_query, provider_send, Sent, acknowledged, unconfirmed, failed, Decision, proceed,
  already_delivered, already_uncertain, retry, timeout, is_dispatching,
}
use map.Effects.Resolve.{
  Round, leave, again, settle_adopted, after_adopt, unconfirmed_round, outcome_unknown,
  answered_round, decided_round, resolve_round,
}
use map.Effects.Guard.{
  fail_closed, acknowledge, settle_unconfirmed, settle_sent, dispatch_to_provider,
}

module _ (c : Caller) (f : Fence) where
  fail_closed-Onward : (reason : String) (s : Sys) → Onward s (fail_closed c f reason s).1
  unfolding fail_closed
  fail_closed-Onward reason s =
      elim (Bool-cases (issue (mark_uncertain f (some (clip 2000 reason))) c.slot s).0) [
        | inl e ↦ rw e (issue-Onward (mark_uncertain f (some (clip 2000 reason))) c.slot s)
        | inr e ↦ rw e (issue-Onward (mark_uncertain f (some (clip 2000 reason))) c.slot s)
      ]

  acknowledge-Onward : (s : Sys) → Onward s (acknowledge c f s).1
  unfolding acknowledge
  acknowledge-Onward s = elim (Bool-cases (ack c f s).0) [
    | inl e ↦ rw e (ack-Onward c f s)
    | inr e ↦ rw e (ack-Onward c f s)
  ]

  settle_unconfirmed-Onward :
      (reason : String) (a : Answer) (s : Sys) → Onward s (settle_unconfirmed c f reason a s).1
  unfolding settle_unconfirmed
  settle_unconfirmed-Onward reason confirmed s = acknowledge-Onward s
  settle_unconfirmed-Onward reason absent s = fail_closed-Onward reason s
  settle_unconfirmed-Onward reason unknown s = fail_closed-Onward reason s
  settle_unconfirmed-Onward reason broken s = fail_closed-Onward reason s

  settle_sent-Onward : (a : Sent) (s : Sys) → Onward s (settle_sent c f a s).1
  unfolding settle_sent
  settle_sent-Onward acknowledged s = acknowledge-Onward s
  settle_sent-Onward unconfirmed s = Onward-trans (provider_query-Onward s) (
      settle_unconfirmed-Onward "provider returned unknown/timeout" (provider_query s).0
        (provider_query s).1)
  settle_sent-Onward (failed exc) s = Onward-trans (provider_query-Onward s) (
      settle_unconfirmed-Onward ("provider error: " ++ exc) (provider_query s).0
        (provider_query s).1)

  pub dispatch_to_provider-Onward : (s : Sys) → Onward s (dispatch_to_provider c f s).1
  unfolding dispatch_to_provider
  dispatch_to_provider-Onward s =
      Onward-trans (provider_send-Onward s)
        (settle_sent-Onward (provider_send s).0 (provider_send s).1)

-- Where a round ends.
abbrev pub end_of : {A : Type 0} → Round A → Sys
end_of (leave a s) = s
end_of (again s) = s

leave_or_again :
    {A : Type 0} (b : Bool) (a : A) (s t : Sys)
    → Onward s t
    → Onward s (end_of (if b then leave a t else again t))
leave_or_again true a s t h = h
leave_or_again false a s t h = h

again_or_leave :
    {A : Type 0} (b : Bool) (a : A) (s t : Sys)
    → Onward s t
    → Onward s (end_of (if b then again t else leave a t))
again_or_leave true a s t h = h
again_or_leave false a s t h = h

module _ (c : Caller) (deadline : ℕ) where
  unknown-Onward : (f : Fence) (s : Sys) → Onward s (end_of (settle_adopted c deadline f unknown s))
  unfolding settle_adopted
  unknown-Onward f s =
      leave_or_again _ _ s _ (issue-Onward (mark_uncertain f (some outcome_unknown)) c.slot s)

  settle_adopted-Onward :
      (f : Fence) (a : Answer) (s : Sys) → Onward s (end_of (settle_adopted c deadline f a s))
  unfolding settle_adopted
  settle_adopted-Onward f confirmed s = leave_or_again _ _ s _ (ack-Onward c f s)
  settle_adopted-Onward f absent s = Onward-refl s
  settle_adopted-Onward f unknown s = unknown-Onward f s
  settle_adopted-Onward f broken s = unknown-Onward f s

  after_adopt-Onward : (o : Option Fence) (s : Sys) → Onward s (end_of (after_adopt c deadline o s))
  unfolding after_adopt
  after_adopt-Onward none s = Onward-refl s
  after_adopt-Onward (some f) s =
      Onward-trans (provider_query-Onward s)
        (settle_adopted-Onward f (provider_query s).0 (provider_query s).1)

  unconfirmed_round-Onward :
      (o : Snapshot) (s : Sys) → Onward s (end_of (unconfirmed_round c deadline o s))
  unfolding unconfirmed_round
  unconfirmed_round-Onward o s = elim (Bool-cases o.lease_alive) [
    | inl e ↦ rw e (again_or_leave _ _ s _ (poll-Onward deadline s))
    | inr e ↦
        rw e
          (Onward-trans (adopt-Onward c o s) (after_adopt-Onward (adopt c o s).0 (adopt c o s).1))
  ]

  answered_round-Onward :
      (o : Snapshot) (a : Answer) (s : Sys) → Onward s (end_of (answered_round c deadline o a s))
  unfolding answered_round
  answered_round-Onward o confirmed s = leave_or_again _ _ s _ (confirm-Onward c o s)
  answered_round-Onward o absent s = unconfirmed_round-Onward o s
  answered_round-Onward o unknown s = unconfirmed_round-Onward o s
  answered_round-Onward o broken s = unconfirmed_round-Onward o s

  decided_round-Onward :
      (o : Snapshot) (d : Decision) (s : Sys) → Onward s (end_of (decided_round c deadline o d s))
  unfolding decided_round
  decided_round-Onward o (is_dispatching _) s =
      Onward-trans (provider_query-Onward s)
        (answered_round-Onward o (provider_query s).0 (provider_query s).1)
  decided_round-Onward o (proceed f) s = Onward-refl s
  decided_round-Onward o already_delivered s = Onward-refl s
  decided_round-Onward o already_uncertain s = Onward-refl s
  decided_round-Onward o retry s = Onward-refl s
  decided_round-Onward o timeout s = Onward-refl s

  -- After the SELECT with which a round of `_resolve_dispatching` begins.
  pub resolve_round-after : (s : Sys) → Onward (interfere s) (end_of (resolve_round c deadline s))
  unfolding resolve_round snapshot
  resolve_round-after s =
      decided_round-Onward (snapshot c.slot s).0
        (decide (snapshot c.slot s).0 (snapshot c.slot s).0.status) (interfere s)
