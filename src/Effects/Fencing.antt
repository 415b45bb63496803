-- ===== src/Effects/Fencing.antt =====
-- What one statement of the effect ledger does to the row of its key.
use map.Base.{
  ◌==◌, ==_iff, ◌∙◌, Bool-cases, Option-cases, String, ℕ, ◌+◌, ◌≤◌, ◌<◌, Bool, true, false, ◌≡◌,
  refl, ◌≢◌, ◌⊎◌, inl, inr, Option, none, some, arith, ap,
}
use map.Effects.{
  update_row, dispatched, adopted, adoptable, ended, confirmable, is_pending, EffectStatus, pending,
  dispatching, delivered, uncertain, Row, Fence, Snapshot, Statement, record_intent, begin_dispatch,
  adopt_dispatch, ack_effect, confirm_provider_fact, mark_uncertain, statement_row, mints, owns,
  outcome_text,
}

abbrev pub rank : EffectStatus → ℕ
rank pending = 0
rank dispatching = 1
rank delivered = 2
rank uncertain = 2

abbrev pub token_of : Option Row → Option ℕ
token_of none = none
token_of (some r) = r.dispatch_token

abbrev pub IsTerminal : Row → Type 0
IsTerminal r = (r.status ≡ delivered) ⊎ (r.status ≡ uncertain)

-- The row after a statement that was given `token`, beside the row before it.
pub record RowStep (token : ℕ) (r r' : Row) : Type 0 where
  pub rank_grows : rank r.status ≤ rank r'.status
  pub terminal_stays : IsTerminal r → r' ≡ r
  pub token_fresh : (r'.dispatch_token ≡ r.dispatch_token) ⊎ (r'.dispatch_token ≡ some token)

RowStep-refl : (token : ℕ) (r : Row) → RowStep token r r
RowStep-refl token r = record {
  rank_grows = omega arith;
  terminal_stays = λ _. refl;
  token_fresh = inl refl;
}

-- A property of the row before and of the row after that every write and every refusal has.
update_row_elim {ℓ} :
    (P : Row → Type ℓ) (p : Row → Bool) (f : Row → Row) (r : Row)
    → (p r ≡ true → P (f r))
    → P r
    → (r' : Row) × ((update_row p f (some r)).0 ≡ some r') × P r'
unfolding update_row
update_row_elim P p f r yes' no' = elim (Bool-cases (p r)) [
  | inl e ↦ (f r, rw e refl, yes' e)
  | inr e ↦ (r, rw e refl, no')
]

module _ (token now : ℕ) (r : Row) where
  begin_step :
      (owner attempt until : ℕ)
      → is_pending r.status ≡ true
      → RowStep token r
          (dispatched (record { token = token; owner = owner; attempt = attempt }) until r)
  unfolding dispatched
  begin_step owner attempt until h = record {
    rank_grows = ground arith;
    terminal_stays = ground arith;
    token_fresh = inr refl;
  }

  adopt_step :
      (o : Snapshot) (owner attempt until : ℕ)
      → adoptable o now r ≡ true
      → RowStep token r
          (adopted (record { token = token; owner = owner; attempt = attempt }) until r)
  unfolding adopted adoptable
  adopt_step o owner attempt until h = record {
    rank_grows = omega arith;
    terminal_stays = ground arith;
    token_fresh = inr refl;
  }

  end_step :
      (s : EffectStatus) (text : String)
      → rank s ≡ 2
      → rank r.status < 2
      → RowStep token r (ended s text r)
  unfolding ended
  end_step s text h g = record {
    rank_grows = ground arith;
    terminal_stays = λ t. absurd (ground arith);
    token_fresh = inl refl;
  }

  owns_open : (f : Fence) → owns f r ≡ true → rank r.status < 2
  unfolding owns
  owns_open f h = ground arith

  confirmable_open : (o : Snapshot) → confirmable o r ≡ true → rank r.status < 2
  unfolding confirmable
  confirmable_open o h = ground arith

  -- A property of the row that every write and every refusal has.
  pub statement_elim {ℓ} :
      (P : Row → Type ℓ)
      → P r
      → ((owner attempt until : ℕ)
          → is_pending r.status ≡ true
          → P (dispatched (record { token = token; owner = owner; attempt = attempt }) until r))
      → ((o : Snapshot) (owner attempt until : ℕ)
          → adoptable o now r ≡ true
          → P (adopted (record { token = token; owner = owner; attempt = attempt }) until r))
      → ((s : EffectStatus) (text : String) → rank s ≡ 2 → rank r.status < 2 → P (ended s text r))
      → (st : Statement) → (r' : Row) × ((statement_row st token now (some r)).0 ≡ some r') × P r'
  unfolding statement_row
  statement_elim P stay begun taken end (record_intent job_id) = (r, refl, stay)
  statement_elim P stay begun taken end (begin_dispatch owner attempt lease) =
      update_row_elim P (λ x. is_pending x.status)
        (dispatched (record { token = token; owner = owner; attempt = attempt }) (now + lease)) r
        (begun owner attempt (now + lease)) stay
  statement_elim P stay begun taken end (adopt_dispatch o owner attempt lease) =
      update_row_elim P (adoptable o now)
        (adopted (record { token = token; owner = owner; attempt = attempt }) (now + lease)) r
        (taken o owner attempt (now + lease)) stay
  statement_elim P stay begun taken end (ack_effect f) =
      update_row_elim P (owns f) (ended delivered "confirmed") r
        (λ h. end delivered "confirmed" refl (owns_open f h)) stay
  statement_elim P stay begun taken end (confirm_provider_fact o) =
      update_row_elim P (confirmable o) (ended delivered "confirmed-by-provider-query") r
        (λ h. end delivered "confirmed-by-provider-query" refl (confirmable_open o h)) stay
  statement_elim P stay begun taken end (mark_uncertain f reason) =
      update_row_elim P (owns f) (ended uncertain (outcome_text reason)) r
        (λ h. end uncertain (outcome_text reason) refl (owns_open f h)) stay

  -- No statement takes a row away, revives a terminal one or brings an old token back.
  pub statement-RowStep :
      (st : Statement)
      → (r' : Row) × ((statement_row st token now (some r)).0 ≡ some r') × RowStep token r r'
  statement-RowStep =
      statement_elim (RowStep token r) (RowStep-refl token r) begin_step adopt_step end_step

-- The generation `token` holds the row until the time `until`, or the effect has ended under it.
pub record HeldUntil (token until : ℕ) (r : Row) : Type 0 where
  pub generation : r.dispatch_token ≡ some token
  pub expiry : r.dispatch_expires_at ≡ some until
  pub begun : 0 < rank r.status

module _ (token now : ℕ) (r : Row) (t until : ℕ) (held : HeldUntil t until r)
    (before : now < until) where
  begin_refused : is_pending r.status ≡ false
  begin_refused = ground arith

  adopt_refused : (o : Snapshot) → adoptable o now r ≡ false
  unfolding adoptable
  adopt_refused o = rw held.expiry (ground arith)

  end_held : (s : EffectStatus) (text : String) → 0 < rank s → HeldUntil t until (ended s text r)
  unfolding ended
  end_held s text h = record { generation = held.generation; expiry = held.expiry; begun = h }

  -- A live generation keeps the row, whatever statement anybody executes.
  pub statement-HeldUntil :
      (st : Statement)
      → (r' : Row) × ((statement_row st token now (some r)).0 ≡ some r') × HeldUntil t until r'
  statement-HeldUntil =
      statement_elim token now r (HeldUntil t until) held (λ owner attempt u h. cc begin_refused)
        (λ o owner attempt u h. cc (adopt_refused o)) (λ s text h g. end_held s text (omega arith))

  -- Nobody else is granted the dispatch.
  pub grants_refused :
      (st : Statement) → mints st ≡ true → (statement_row st token now (some r)).1 ≡ false
  unfolding statement_row update_row
  grants_refused (begin_dispatch owner attempt lease) h = rw begin_refused refl
  grants_refused (adopt_dispatch o owner attempt lease) h = rw (adopt_refused o) refl
  grants_refused (record_intent job_id) h = cc
  grants_refused (ack_effect f) h = cc
  grants_refused (confirm_provider_fact o) h = cc
  grants_refused (mark_uncertain f reason) h = cc

-- A fence that the row does not carry owns nothing.
pub other_token : (f : Fence) (r : Row) → r.dispatch_token ≢ some f.token → owns f r ≡ false
unfolding owns
other_token f r h = elim (Option-cases r.dispatch_token) [
  | inl e ↦ rw e (ground arith)
  | inr (t, e) ↦ elim (Bool-cases (t == f.token)) [
    | inl q ↦ absurd (h (e ∙ ap some ((==_iff t f.token).0 q)))
    | inr q ↦ rw e (ground arith)
  ]
]
