-- ===== src/Effects/History.antt =====
-- Histories of statements on the effect ledger of job_runner.py, by any callers, for any keys, in any order.
use map.Effects.Rows.{Timed, run, same_slot-eq, Keeps, RowOf, mint_keeps, run-Keeps, every_All}
use map.Base.{
  ℕ, suc, ◌+◌, ◌<◌, Bool, true, false, ◌≡◌, refl, sym, ◌∙◌, ◌≢◌, ◌⊎◌, inl, inr, Option, none, some,
  List, [], ◌∷◌, All, arith, ap, Bool-cases, eq_refl, String,
}
use map.Effects.{
  record_intent, confirm_provider_fact, Row, Fence, Slot, Ledger, Statement, begin_dispatch,
  adopt_dispatch, ack_effect, mark_uncertain, statement_row, mints, same_slot, write, execute,
  update_row, adopted, dispatched, adoptable, is_pending,
}
use map.Effects.Fencing.{
  statement-RowStep, HeldUntil, statement-HeldUntil, grants_refused, other_token,
}

-- The row is not of the generation `token`, which was minted before.
abbrev Superseded : ℕ → ℕ → Row → Type 0
Superseded token m r = (token < m) × (r.dispatch_token ≢ some token)

Superseded-grows : (token m : ℕ) (r : Row) → Superseded token m r → Superseded token (suc m) r
Superseded-grows token m r h = (omega arith, h.1)

Superseded-Keeps : (token : ℕ) (e : Timed) → Keeps (Superseded token) e
Superseded-Keeps token e m r h =
    let (r', wrote, st) = statement-RowStep m e.now r e.statement in
    (
      r',
      wrote,
      mint_keeps (Superseded token) (Superseded-grows token) e.slot (mints e.statement) m r'
          (h.0, fresh r' st.token_fresh),
    )
  where
    fresh :
        (r' : Row)
        → ((r'.dispatch_token ≡ r.dispatch_token) ⊎ (r'.dispatch_token ≡ some m))
        → r'.dispatch_token ≢ some token
    fresh r' (inl e') q = h.1 (sym e' ∙ q)
    fresh r' (inr e') q =
        absurd
          (let p : ◌≡◌ {A = Option ℕ} (some m) (some token) = sym e' ∙ q in ground (arith, h.0))

run-Superseded :
    (token : ℕ) (es : List Timed) (t : Slot) (l : Ledger)
    → RowOf (Superseded token) t l
    → RowOf (Superseded token) t (run es l)
run-Superseded token es t l h =
    run-Keeps (Superseded token) (Superseded-grows token) t es
      (every_All (Keeps (Superseded token)) (Superseded-Keeps token) es) l h

-- A statement that is refused at the row of its key changes no row.
abbrev pub SameRows : Ledger → Ledger → Type 0
SameRows l l' = (u : Slot) → l'.rows u ≡ l.rows u

-- The two statements by which the holder of a fence ends an effect.
pub data EndsUnder (f : Fence) : Statement → Type 0 where
  acks : EndsUnder f (ack_effect f)
  gives_up : (reason : Option String) → EndsUnder f (mark_uncertain f reason)

stale_statement :
    (f : Fence) (st : Statement) (token now : ℕ) (r : Row)
    → EndsUnder f st
    → r.dispatch_token ≢ some f.token
    → statement_row st token now (some r) ≡ (some r, false)
unfolding statement_row update_row
stale_statement f st token now r acks h = rw (other_token f r h) refl
stale_statement f st token now r (gives_up reason) h = rw (other_token f r h) refl

refused_execute :
    (st : Statement) (t : Slot) (now : ℕ) (l : Ledger)
    → statement_row st l.minted now (l.rows t) ≡ (l.rows t, false)
    → ((execute st t now l).1 ≡ false) × SameRows l (execute st t now l).0
unfolding execute write
refused_execute st t now l h = (
  ap (λ x. x.1) h,
  λ u. elim (Bool-cases (same_slot t u)) [
    | inl same ↦ rw same (ap (λ x. x.0) h ∙ ap l.rows (same_slot-eq t u same))
    | inr other ↦ rw other refl
  ],
)

-- The lease of a statement that grants the dispatch.
abbrev pub lease_of : Statement → ℕ
lease_of (begin_dispatch owner attempt lease) = lease
lease_of (adopt_dispatch o owner attempt lease) = lease
lease_of _ = 0

pub wrote_row :
    (p : Row → Bool) (f : Row → Row) (o : Option Row)
    → (update_row p f o).1 ≡ true
    → (r : Row) × (p r ≡ true) × ((update_row p f o).0 ≡ some (f r))
unfolding update_row
wrote_row p f none h = cc
wrote_row p f (some r) h = elim (Bool-cases (p r)) [
  | inl e ↦ (r, e, rw e refl)
  | inr e ↦ absurd (let g = rw e at h in cc)
]

granted_row :
    (st : Statement) (token now : ℕ) (o : Option Row)
    → mints st ≡ true
    → (statement_row st token now o).1 ≡ true
    → (r : Row) × ((statement_row st token now o).0 ≡ some r)
      × HeldUntil token (now + lease_of st) r
unfolding statement_row dispatched adopted adoptable
granted_row (begin_dispatch owner attempt lease) token now o m h =
    let (r, p, e) =
      wrote_row (λ x. is_pending x.status)
        (dispatched (record { token = token; owner = owner; attempt = attempt }) (now + lease)) o
        h in
    (
      dispatched (record { token = token; owner = owner; attempt = attempt }) (now + lease) r,
      e,
      record { generation = refl; expiry = refl; begun = omega arith },
    )
granted_row (adopt_dispatch ob owner attempt lease) token now o m h =
    let (r, p, e) =
      wrote_row (adoptable ob now)
        (adopted (record { token = token; owner = owner; attempt = attempt }) (now + lease)) o h in
    (
      adopted (record { token = token; owner = owner; attempt = attempt }) (now + lease) r,
      e,
      record { generation = refl; expiry = refl; begun = ground arith },
    )
granted_row (record_intent job_id) token now o m h = cc
granted_row (ack_effect f) token now o m h = cc
granted_row (confirm_provider_fact ob) token now o m h = cc
granted_row (mark_uncertain f reason) token now o m h = cc

pub same_slot_refl : (s : Slot) → same_slot s s ≡ true
same_slot_refl s = ground (arith, eq_refl s.effect_key)

-- A granted dispatch: the row carries the token that was minted, and its lease.
pub granted :
    (st : Statement) (t : Slot) (now : ℕ) (l : Ledger)
    → mints st ≡ true
    → (execute st t now l).1 ≡ true
    → (r : Row) × ((execute st t now l).0.rows t ≡ some r)
      × HeldUntil l.minted (now + lease_of st) r
unfolding execute write
granted st t now l m h =
    let (r, e, held) = granted_row st l.minted now (l.rows t) m h in
    (r, rw (same_slot_refl t) e, held)

minted-execute :
    (st : Statement) (t : Slot) (now : ℕ) (l : Ledger)
    → mints st ≡ true
    → (execute st t now l).0.minted ≡ suc l.minted
unfolding execute
minted-execute st t now l m = rw m refl

-- Once a dispatch of the key has been granted to somebody, every fence that was minted before ends nothing, after any
-- history: `ack_effect` and `mark_uncertain` under it match no row and leave all rows as they are.
pub superseded_fence :
    (grant : Statement) (t : Slot) (now : ℕ) (l : Ledger) (f : Fence)
    → mints grant ≡ true
    → (execute grant t now l).1 ≡ true
    → f.token < l.minted
    → (es : List Timed) (st : Statement) (later : ℕ) → EndsUnder f st
    → let l' = run es (execute grant t now l).0 in
      ((execute st t later l').1 ≡ false) × SameRows l' (execute st t later l').0
superseded_fence grant t now l f m ok old es st later ends =
    let (r, here, held) = granted grant t now l m ok in
    let fresh : r.dispatch_token ≢ some f.token = λ q.
      (let p : ◌≡◌ {A = Option ℕ} (some l.minted) (some f.token) = sym held.generation ∙ q in
        ground (arith, old)) in
    let (r', here', gone) =
      run-Superseded f.token es t (execute grant t now l).0
        (r, here, (rw (minted-execute grant t now l m) (omega arith), fresh)) in
    refused_execute st t later _ (rw here' (stale_statement f st _ later r' ends gone.1))

HeldUntil-Keeps :
    (token until : ℕ) (e : Timed) → e.now < until → Keeps (λ _ x. HeldUntil token until x) e
HeldUntil-Keeps token until e h m r held =
    statement-HeldUntil m e.now r token until held h e.statement

run-HeldUntil :
    (token until : ℕ) (es : List Timed)
    → All (λ e. e.now < until) es
    → (t : Slot) (l : Ledger) → RowOf (λ _ x. HeldUntil token until x) t l
    → RowOf (λ _ x. HeldUntil token until x) t (run es l)
run-HeldUntil token until es a t l h =
    run-Keeps (λ _ x. HeldUntil token until x) (λ m x g. g) t es (each es a) l h
  where
    each :
        (xs : List Timed)
        → All (λ e. e.now < until) xs
        → All (Keeps (λ _ x. HeldUntil token until x)) xs
    each [] b = tt
    each (x ∷ xs) b = (HeldUntil-Keeps token until x b.0, each xs b.1)

-- While the lease of a granted dispatch lasts nobody else is granted the dispatch of the key, whatever statements are executed
-- in between.
pub grant_exclusive :
    (grant : Statement) (t : Slot) (now : ℕ) (l : Ledger)
    → mints grant ≡ true
    → (execute grant t now l).1 ≡ true
    → (es : List Timed) → All (λ e. e.now < now + lease_of grant) es
    → (other : Statement) (later : ℕ) → mints other ≡ true
    → later < now + lease_of grant
    → (execute other t later (run es (execute grant t now l).0)).1 ≡ false
unfolding execute
grant_exclusive grant t now l m ok es a other later m' before =
    let (r, here, held) = granted grant t now l m ok in
    let (r', here', held') =
      run-HeldUntil l.minted (now + lease_of grant) es a t (execute grant t now l).0
        (r, here, held) in
    rw here' (grants_refused _ later r' l.minted (now + lease_of grant) held' before other m')
