-- ===== src/Effects/Quiet.antt =====
-- `_resolve_dispatching` (map-business-backend/app/workers/job_runner.py) when no other caller is left.
use map.Effects.Held.{
  QuietAt, interfere_quiet, query_quiet, Nearer, left, confirm_quiet, adopt_quiet,
  after_adopt-Nearer,
}
use map.Base.{ℕ, ◌-◌, ◌≡◌, refl, subst, Option, none, some, List, [], ◌∷◌, Bool-cases, inl, inr}
use map.Effects.{
  EffectStatus, pending, dispatching, delivered, uncertain, Row, Snapshot, snapshot_row,
}
use map.Effects.World.{
  Sys, snapshot, Caller, adopt, Answer, confirmed, absent, unknown, broken, next_answer,
  provider_query, poll, decide,
}
use map.Effects.Resolve.{unconfirmed_round, answered_round, decided_round, resolve_round}
use map.Effects.Methods.{poll-nearer}

module _ (c : Caller) (deadline now : ℕ) (r : Row) (d : r.status ≡ dispatching) where
  open c use {slot}

  abbrev o : Snapshot
  o = snapshot_row now (some r)

  unconfirmed_round-Nearer :
      (s : Sys)
      → QuietAt slot r now s
      → Nearer deadline (deadline - s.loop_now) (unconfirmed_round c deadline o s)
  unfolding unconfirmed_round
  unconfirmed_round-Nearer s h = elim (Bool-cases o.lease_alive) [
    | inl e ↦ elim (Bool-cases (poll deadline s).0) [
      | inl p ↦ rw (e, p) (poll-nearer deadline s p)
      | inr p ↦ rw (e, p) tt
    ]
    | inr e ↦
        let (f, r', won, mine, q) = adopt_quiet c deadline 0 now r s d e h in
        rw e (
          after_adopt-Nearer c deadline (deadline - s.loop_now) now (adopt c o s).0 f r'
            (adopt c o s).1 won mine q)
  ]

  answered_round-Nearer :
      (a : Answer) (s : Sys)
      → QuietAt slot r now s
      → Nearer deadline (deadline - s.loop_now) (answered_round c deadline o a s)
  unfolding answered_round
  answered_round-Nearer confirmed s h =
      left deadline _ _ _ _ (confirm_quiet c deadline 0 now r s d h)
  answered_round-Nearer absent s h = unconfirmed_round-Nearer s h
  answered_round-Nearer unknown s h = unconfirmed_round-Nearer s h
  answered_round-Nearer broken s h = unconfirmed_round-Nearer s h

query_clock : (s : Sys) → (provider_query s).1.loop_now ≡ s.loop_now
unfolding provider_query
query_clock s = go s.queries
  where
    go : (as' : List Answer) → (next_answer as' s).1.loop_now ≡ s.loop_now
    go [] = refl
    go (broken ∷ rest) = refl
    go (confirmed ∷ rest) = refl
    go (absent ∷ rest) = refl
    go (unknown ∷ rest) = refl

module _ (c : Caller) (deadline : ℕ) where
  open c use {slot}

  decided_quiet :
      (s : Sys) (q : Option Row)
      → s.others ≡ []
      → s.ledger.rows slot ≡ q
      → Nearer deadline (deadline - s.loop_now) (
          decided_round c deadline
            (snapshot_row s.db_now q)
            (decide (snapshot_row s.db_now q) (snapshot_row s.db_now q).status)
            s)
  unfolding decided_round decide snapshot_row
  decided_quiet s none h e = tt
  decided_quiet s (some r) h e = go r.status refl
    where
      go :
          (st : EffectStatus)
          → r.status ≡ st
          → Nearer deadline (deadline - s.loop_now) (
              decided_round c deadline
                (snapshot_row s.db_now (some r))
                (decide (snapshot_row s.db_now (some r)) (some st))
                s)
      go pending g = tt
      go delivered g = tt
      go uncertain g = tt
      go dispatching g =
          subst
            (λ x. Nearer deadline (deadline - x) (
              answered_round c deadline (snapshot_row s.db_now (some r)) (provider_query s).0
                (provider_query s).1))
            (query_clock s)
            (answered_round-Nearer c deadline s.db_now r g (provider_query s).0 (provider_query s).1
              (query_quiet slot r s.db_now s (record { nobody = h; row = e; clock = refl })))

  -- With nobody else left, a round of `_resolve_dispatching` ends the loop or brings the deadline nearer.
  pub resolve_round-Nearer :
      (s : Sys)
      → s.others ≡ []
      → Nearer deadline (deadline - s.loop_now) (resolve_round c deadline s)
  unfolding resolve_round snapshot
  resolve_round-Nearer s h = rw (interfere_quiet s h) (decided_quiet s (s.ledger.rows slot) h refl)
