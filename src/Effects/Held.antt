-- ===== src/Effects/Held.antt =====
-- The statements of the owner of a dispatch (map-business-backend/app/workers/job_runner.py) when no other caller is left.
use map.Base.{
  ℕ, ◌+◌, ◌-◌, ◌<◌, String, Bool, true, false, ◌≡◌, refl, ap, ◌∙◌, Option, none, some, List, [],
  ◌∷◌, arith, ◌==◌, ==_iff, if◌then◌else◌, Option-cases, inl, inr,
}
use map.Effects.{
  dispatching, Row, Fence, Snapshot, Slot, Statement, Ledger, mint, ack_effect,
  confirm_provider_fact, mark_uncertain, execute, write, statement_row, snapshot_row, owns, adopted,
  adoptable, confirmable, not_distinct, observed_predicate, fence_predicate, update_row,
}
use map.Effects.World.{
  Sys, interfere, interfere_with, issue, Caller, adopt, ack, confirm, Answer, confirmed, absent,
  unknown, broken, next_answer, provider_query,
}
use map.Effects.Resolve.{Round, leave, again, outcome_unknown, settle_adopted, after_adopt}
use map.Effects.History.{same_slot_refl}

pub not_distinct_refl : (o : Option ℕ) → not_distinct o o ≡ true
not_distinct_refl none = refl
not_distinct_refl (some n) = (==_iff n n).1 refl

pub equal_refl : (n : ℕ) → (n == n) ≡ true
equal_refl n = (==_iff n n).1 refl

-- Nobody else is left, and the row and the clock of the database are these.
pub record QuietAt (slot : Slot) (r : Row) (now : ℕ) (s : Sys) : Type 0 where
  pub nobody : s.others ≡ []
  pub row : s.ledger.rows slot ≡ some r
  pub clock : s.db_now ≡ now

pub interfere_quiet : (s : Sys) → s.others ≡ [] → interfere s ≡ s
unfolding interfere
interfere_quiet s h = ap (λ os. interfere_with os s) h

pub query_quiet :
    (slot : Slot) (r : Row) (now : ℕ) (s : Sys)
    → QuietAt slot r now s
    → QuietAt slot r now (provider_query s).1
unfolding provider_query
query_quiet slot r now s h = go s.queries
  where
    go : (as' : List Answer) → QuietAt slot r now (next_answer as' s).1
    go [] = h
    go (broken ∷ rest) = record { nobody = h.nobody; row = h.row; clock = h.clock }
    go (confirmed ∷ rest) = record { nobody = h.nobody; row = h.row; clock = h.clock }
    go (absent ∷ rest) = record { nobody = h.nobody; row = h.row; clock = h.clock }
    go (unknown ∷ rest) = record { nobody = h.nobody; row = h.row; clock = h.clock }

-- What a statement answers, and the row that it leaves.
pub issue_quiet :
    (slot : Slot) (r : Row) (now : ℕ) (s : Sys) (st : Statement)
    → QuietAt slot r now s
    → (issue st slot s).0 ≡ (statement_row st s.ledger.minted now (some r)).1
unfolding issue execute
issue_quiet slot r now s st h = rw (interfere_quiet s h.nobody, h.row, h.clock) refl

-- A round ends the loop, or the deadline is nearer than `m`.
abbrev pub Nearer : {A : Type 0} → ℕ → ℕ → Round A → Type 0
Nearer deadline m (leave a t) = Unit
Nearer deadline m (again t) = (deadline - t.loop_now) < m

pub left :
    {A : Type 0} (deadline m : ℕ) (b : Bool) (a : A) (t : Sys)
    → b ≡ true
    → Nearer deadline m (if b then leave a t else again t)
left deadline m b a t h = rw h tt

pub ack_written :
    (f : Fence) (token now : ℕ) (r : Row)
    → owns f r ≡ true
    → (statement_row (ack_effect f) token now (some r)).1 ≡ true
unfolding statement_row update_row
ack_written f token now r h = rw h refl

pub uncertain_written :
    (f : Fence) (reason : Option String) (token now : ℕ) (r : Row)
    → owns f r ≡ true
    → (statement_row (mark_uncertain f reason) token now (some r)).1 ≡ true
unfolding statement_row update_row
uncertain_written f reason token now r h = rw h refl

pub confirm_written :
    (o : Snapshot) (token now : ℕ) (r : Row)
    → confirmable o r ≡ true
    → (statement_row (confirm_provider_fact o) token now (some r)).1 ≡ true
unfolding statement_row update_row
confirm_written o token now r h = rw h refl

pub adopted-owns :
    (slot : Slot) (l : Ledger) (owner attempt until : ℕ) (r : Row)
    → r.status ≡ dispatching
    → owns (mint l owner attempt) (adopted (mint l owner attempt) until r) ≡ true
unfolding owns adopted fence_predicate
adopted-owns slot l owner attempt until r h =
    rw (h, equal_refl l.minted, equal_refl owner, equal_refl attempt) refl

pub seen-adoptable :
    (now : ℕ) (r : Row)
    → r.status ≡ dispatching
    → (snapshot_row now (some r)).lease_alive ≡ false
    → adoptable (snapshot_row now (some r)) now r ≡ true
unfolding adoptable snapshot_row observed_predicate
seen-adoptable now r h e =
    rw
      (
        h,
        not_distinct_refl r.dispatch_token,
        not_distinct_refl r.dispatch_owner,
        not_distinct_refl r.dispatch_attempt,
      )
      (elim (Option-cases r.dispatch_expires_at) [
        | inl x ↦ rw x refl
        | inr (u, x) ↦ rw x (let y = rw x at e in ground arith)
      ])

pub seen-confirmable :
    (now : ℕ) (r : Row) → r.status ≡ dispatching → confirmable (snapshot_row now (some r)) r ≡ true
unfolding confirmable snapshot_row observed_predicate
seen-confirmable now r h =
    rw
      (
        h,
        not_distinct_refl r.dispatch_token,
        not_distinct_refl r.dispatch_owner,
        not_distinct_refl r.dispatch_attempt,
      )
      refl

module _ (c : Caller) (deadline m now : ℕ) where
  open c use {slot}

  pub ack_quiet :
      (f : Fence) (r : Row) (s : Sys)
      → owns f r ≡ true
      → QuietAt slot r now s
      → (ack c f s).0 ≡ true
  unfolding ack
  ack_quiet f r s o h =
      let e : (issue (ack_effect f) slot s).0 ≡ true =
        issue_quiet slot r now s (ack_effect f) h ∙ ack_written f s.ledger.minted now r o in
      rw e refl

  pub confirm_quiet :
      (r : Row) (s : Sys)
      → r.status ≡ dispatching
      → QuietAt slot r now s
      → (confirm c (snapshot_row now (some r)) s).0 ≡ true
  unfolding confirm
  confirm_quiet r s d h =
      let o = snapshot_row now (some r) in
      let e : (issue (confirm_provider_fact o) slot s).0 ≡ true =
        issue_quiet slot r now s (confirm_provider_fact o) h
        ∙ confirm_written o s.ledger.minted now r (seen-confirmable now r d) in
      rw e refl

  pub unknown_quiet :
      (f : Fence) (r : Row) (s : Sys)
      → owns f r ≡ true
      → QuietAt slot r now s
      → Nearer deadline m (settle_adopted c deadline f unknown s)
  unfolding settle_adopted
  unknown_quiet f r s o h = left deadline m _ _ _ (
      issue_quiet slot r now s (mark_uncertain f (some outcome_unknown)) h
      ∙ uncertain_written f (some outcome_unknown) s.ledger.minted now r o)

  pub settle_adopted-Nearer :
      (f : Fence) (r : Row) (a : Answer) (s : Sys)
      → owns f r ≡ true
      → QuietAt slot r now s
      → Nearer deadline m (settle_adopted c deadline f a s)
  unfolding settle_adopted
  settle_adopted-Nearer f r confirmed s o h = left deadline m _ _ _ (ack_quiet f r s o h)
  settle_adopted-Nearer f r absent s o h = tt
  settle_adopted-Nearer f r unknown s o h = unknown_quiet f r s o h
  settle_adopted-Nearer f r broken s o h = unknown_quiet f r s o h

  -- An expired dispatch that nobody else touches is adopted.
  pub adopt_quiet :
      (r : Row) (s : Sys)
      → r.status ≡ dispatching
      → (snapshot_row now (some r)).lease_alive ≡ false
      → QuietAt slot r now s
      → (f : Fence) × (r' : Row) × ((adopt c (snapshot_row now (some r)) s).0 ≡ some f)
        × (owns f r' ≡ true)
        × QuietAt slot r' now (adopt c (snapshot_row now (some r)) s).1
  unfolding adopt execute statement_row
  adopt_quiet r s d e h =
      let f = mint s.ledger c.owner c.attempt in
      let ok : (update_row (adoptable (snapshot_row now (some r)) now) (adopted f (now + c.lease))
            (some r))
          ≡ (some (adopted f (now + c.lease) r), true) =
        unfold update_row in rw (seen-adoptable now r d e) refl in
      (
        f,
        adopted f (now + c.lease) r,
        rw (interfere_quiet s h.nobody, h.row, h.clock, ok) refl,
        adopted-owns slot s.ledger c.owner c.attempt (now + c.lease) r d,
        record {
          nobody = rw (interfere_quiet s h.nobody, h.row, h.clock, ok) (h.nobody);
          row =
              rw (interfere_quiet s h.nobody, h.row, h.clock, ok)
                (unfold write in rw (same_slot_refl slot) refl);
          clock = rw (interfere_quiet s h.nobody, h.row, h.clock, ok) refl;
        },
      )

  pub after_adopt-Nearer :
      (o : Option Fence) (f : Fence) (r : Row) (s : Sys)
      → o ≡ some f
      → owns f r ≡ true
      → QuietAt slot r now s
      → Nearer deadline m (after_adopt c deadline o s)
  unfolding after_adopt
  after_adopt-Nearer none f r s e o h = cc
  after_adopt-Nearer (some g) f r s e o h =
      settle_adopted-Nearer g r (provider_query s).0 (provider_query s).1
        (let p : g ≡ f = cc in rw p o) (query_quiet slot r now s h)
