-- ===== src/Effects/Methods.antt =====
-- The statements and methods of `EffectGuard` (map-business-backend/app/workers/job_runner.py): what they use up of other callers'
-- statements, which are finitely many, and of the time.
use map.Base.{
  ℕ, ◌-◌, ◌≤◌, ◌<◌, true, false, ◌≡◌, refl, ◌⊎◌, inl, inr, List, [], ◌∷◌, length, arith, ◌==◌,
  Bool-cases,
}
use map.Effects.{
  ack_effect, confirm_provider_fact, adopt_dispatch, begin_dispatch, Fence, Snapshot, Slot,
  Statement,
}
use map.Effects.World.{
  Sys, Event, runs, passes, happen, happen_all, interfere, interfere_with, issue, issued, snapshot,
  has_effect, Caller, begin, adopt, ack, confirm, Answer, confirmed, absent, unknown, broken,
  next_answer, provider_query, provider_send, next_sent, Sent, poll,
}

pub record Onward (s t : Sys) : Type 0 where
  pub fewer : length t.others ≤ length s.others
  pub later : s.loop_now ≤ t.loop_now

pub Onward-refl : (s : Sys) → Onward s s
Onward-refl s = record { fewer = omega arith; later = omega arith }

pub Onward-trans : {s t u : Sys} → Onward s t → Onward t u → Onward s u
Onward-trans a b = record { fewer = omega arith; later = omega arith }

pub happen_all-Onward : (es : List Event) (s : Sys) → Onward s (happen_all es s)
unfolding happen_all
happen_all-Onward [] s = Onward-refl s
happen_all-Onward (runs st slot ∷ es) s =
    let a = happen_all-Onward es (happen (runs st slot) s) in
    record { fewer = a.fewer; later = a.later }
happen_all-Onward (passes n ∷ es) s =
    let a = happen_all-Onward es (happen (passes n) s) in
    record { fewer = a.fewer; later = a.later }

-- The first statement of a caller takes up what others do before it.
pub interfere-fewer : (s : Sys) → (s.others ≡ []) ⊎ (length (interfere s).others < length s.others)
unfolding interfere
interfere-fewer s = go s.others
  where
    go : (os : List (List Event)) → (os ≡ []) ⊎ (length (interfere_with os s).others < length os)
    go [] = inl refl
    go (es ∷ rest) = inr (
        let a = happen_all-Onward es (record s { others = rest }) in let b = a.fewer in omega arith)

pub interfere-Onward : (s : Sys) → Onward s (interfere s)
unfolding interfere
interfere-Onward s = go s.others refl
  where
    go : (os : List (List Event)) → s.others ≡ os → Onward s (interfere_with os s)
    go [] h = Onward-refl s
    go (es ∷ rest) h =
        let a = happen_all-Onward es (record s { others = rest }) in
        record { fewer = let b = a.fewer in rw h (omega arith); later = a.later }

pub issue-Onward : (st : Statement) (slot : Slot) (s : Sys) → Onward s (issue st slot s).1
unfolding issue
issue-Onward st slot s = let a = interfere-Onward s in record { fewer = a.fewer; later = a.later }

pub has_effect-Onward : (slot : Slot) (s : Sys) → Onward s (has_effect slot s).1
unfolding has_effect snapshot
has_effect-Onward slot s = interfere-Onward s

module _ (c : Caller) where
  open c use {slot}

  pub ack-Onward : (f : Fence) (s : Sys) → Onward s (ack c f s).1
  unfolding ack
  ack-Onward f s = elim (Bool-cases (issue (ack_effect f) slot s).0) [
    | inl e ↦ rw e (issue-Onward (ack_effect f) slot s)
    | inr e ↦ rw e (Onward-trans (issue-Onward (ack_effect f) slot s) (has_effect-Onward slot _))
  ]

  pub confirm-Onward : (o : Snapshot) (s : Sys) → Onward s (confirm c o s).1
  unfolding confirm
  confirm-Onward o s = elim (Bool-cases (issue (confirm_provider_fact o) slot s).0) [
    | inl e ↦ rw e (issue-Onward (confirm_provider_fact o) slot s)
    | inr e ↦
        rw e
          (Onward-trans (issue-Onward (confirm_provider_fact o) slot s) (has_effect-Onward slot _))
  ]

  pub issued-Onward : (st : Statement) (s : Sys) → Onward s (issued st slot s).1
  issued-Onward st s = record { fewer = omega arith; later = omega arith }

  pub adopt-Onward : (o : Snapshot) (s : Sys) → Onward s (adopt c o s).1
  unfolding adopt
  adopt-Onward o s =
      elim (Bool-cases (issued (adopt_dispatch o c.owner c.attempt c.lease) slot (interfere s)).0) [
        | inl e ↦ rw e (
            Onward-trans (interfere-Onward s)
              (issued-Onward (adopt_dispatch o c.owner c.attempt c.lease) (interfere s)))
        | inr e ↦ rw e (
            Onward-trans (interfere-Onward s)
              (issued-Onward (adopt_dispatch o c.owner c.attempt c.lease) (interfere s)))
      ]

  pub begin-Onward : (s : Sys) → Onward s (begin c s).1
  unfolding begin
  begin-Onward s =
      elim (Bool-cases (issued (begin_dispatch c.owner c.attempt c.lease) slot (interfere s)).0) [
        | inl e ↦ rw e (
            Onward-trans (interfere-Onward s)
              (issued-Onward (begin_dispatch c.owner c.attempt c.lease) (interfere s)))
        | inr e ↦ rw e (
            Onward-trans
              (Onward-trans (interfere-Onward s)
                (issued-Onward (begin_dispatch c.owner c.attempt c.lease) (interfere s)))
              (interfere-Onward _))
      ]

pub provider_query-Onward : (s : Sys) → Onward s (provider_query s).1
unfolding provider_query
provider_query-Onward s = go s.queries
  where
    go : (as' : List Answer) → Onward s (next_answer as' s).1
    go [] = Onward-refl s
    go (broken ∷ rest) = record { fewer = omega arith; later = omega arith }
    go (confirmed ∷ rest) = record { fewer = omega arith; later = omega arith }
    go (absent ∷ rest) = record { fewer = omega arith; later = omega arith }
    go (unknown ∷ rest) = record { fewer = omega arith; later = omega arith }

pub provider_send-Onward : (s : Sys) → Onward s (provider_send s).1
unfolding provider_send
provider_send-Onward s = go s.sends
  where
    go : (as' : List Sent) → Onward s (next_sent as' s).1
    go [] = record { fewer = omega arith; later = omega arith }
    go (a ∷ rest) = record { fewer = omega arith; later = omega arith }

pub poll-Onward : (deadline : ℕ) (s : Sys) → Onward s (poll deadline s).1
unfolding poll
poll-Onward deadline s = elim (Bool-cases ((deadline - s.loop_now) == 0)) [
  | inl e ↦ rw e (Onward-refl s)
  | inr e ↦ rw e (record { fewer = omega arith; later = omega arith })
]

-- A poll that goes on has brought the deadline nearer.
pub poll-nearer :
    (deadline : ℕ) (s : Sys)
    → (poll deadline s).0 ≡ true
    → (deadline - (poll deadline s).1.loop_now) < (deadline - s.loop_now)
unfolding poll
poll-nearer deadline s h = elim (Bool-cases ((deadline - s.loop_now) == 0)) [
  | inl e ↦ absurd (let z : false ≡ true = rw e at h in cc)
  | inr e ↦ rw e (ground arith)
]
