-- ===== src/Sandbox/History.antt =====
-- Histories of statements on the table map_control.sandbox_invocations (map_core/map_core/service/sandbox_ledger.py), by any callers, for
-- any keys, in any order, and what they do to one row.
use map.Base.{
  ℕ, ◌+◌, String, Bool, true, Option, none, some, ◌≡◌, refl, sym, ap, ◌∙◌, subst, Bool-cases, inl,
  inr, arith, eq_iff, &&-eq-true,
}
use map.Sandbox.{created, Key, Fence, Outcome, Table, write, put, same_key}
use map.Sandbox.Memory.{seconds, is_pending}
use map.Sandbox.Postgres.{
  Row, Statement, inserts, takes, renews, creates, completes, execute, carries, takeable, taken,
  completed, is_open, update_at, insert_at, new_row,
}

-- What a statement at the time `now` does to a row.
pub data RowStep (now : ℕ) (r : Row) : Statement → Row → Type 0 where
  same : {st : Statement} → RowStep now r st r
  took :
      {k : Key} {owner_id lease_seconds token : ℕ} {observed : Option ℕ}
      → takeable observed now r ≡ true
      → RowStep now r
          (takes k owner_id lease_seconds token observed)
          (taken owner_id lease_seconds token now r)
  renewed :
      {k : Key} {f : Fence} {lease_seconds : ℕ}
      → carries f r ≡ true
      → is_open r.status ≡ true
      → RowStep now r
          (renews k f lease_seconds)
          (record r { lease_expires_at = some (now + seconds lease_seconds); updated_at = now })
  made :
      {k : Key} {f : Fence} {sandbox_id : String}
      → carries f r ≡ true
      → is_pending r.status ≡ true
      → RowStep now r
          (creates k sandbox_id f)
          (record r { status = created; sandbox_id = some sandbox_id; updated_at = now })
  done :
      {k : Key} {f : Fence} {o : Outcome}
      → carries f r ≡ true
      → is_open r.status ≡ true
      → RowStep now r (completes k o f) (completed o now r)

same_key-eq : (j k : Key) → same_key j k ≡ true → j ≡ k
same_key-eq j k h =
    ground (arith, eq_iff j.workspace_id k.workspace_id, eq_iff j.invocation_id k.invocation_id)

abbrev pub RowOf : (Row → Type 0) → Key → Table Row → Type 0
RowOf P k t = (r : Row) × (t.at k ≡ some r) × P r

module _ (P : Row → Type 0) (k : Key) (r : Row) (t : Table Row) (here : t.at k ≡ some r) where
  put_row : (j : Key) (r' : Row) → (j ≡ k → P r') → P r → RowOf P k (put j r' t)
  unfolding put write
  put_row j r' p q = elim (Bool-cases (same_key j k)) [
    | inl e ↦ (r', rw e refl, p (same_key-eq j k e))
    | inr e ↦ (r, rw (e, here) refl, q)
  ]

  update_row :
      (j : Key) (p : Row → Bool) (f : Row → Row) (o : Option Row)
      → t.at j ≡ o
      → P r
      → (p r ≡ true → P (f r))
      → RowOf P k (update_at j p f o t).0
  unfolding update_at
  update_row j p f none h q s = (r, here, q)
  update_row j p f (some x) h q s = elim (Bool-cases (p x)) [
    | inl e ↦ rw e (
        put_row j (f x)
          (λ g.
            let y : x ≡ r =
              (let z : ◌≡◌ {A = Option Row} (some x) (some r) = sym h ∙ ap t.at g ∙ here in cc) in
            subst (λ v. P (f v)) (sym y) (s (subst (λ v. p v ≡ true) y e)))
          q)
    | inr e ↦ rw e (r, here, q)
  ]

  insert_row :
      (j : Key) (x : Row) (o : Option Row) → t.at j ≡ o → P r → RowOf P k (insert_at j x o t).0
  unfolding insert_at
  insert_row j x none h q =
      put_row j x
        (λ g. absurd (let z : ◌≡◌ {A = Option Row} none (some r) = sym h ∙ ap t.at g ∙ here in cc))
        q
  insert_row j x (some y) h q = (r, here, q)

pub execute-RowStep :
    (st : Statement) (now : ℕ) (k : Key) (r : Row) (t : Table Row)
    → t.at k ≡ some r
    → RowOf (RowStep now r st) k (execute st now t).0
unfolding execute
execute-RowStep (inserts c) now k r t h =
    insert_row _ k r t h c.key (new_row c now) (t.at c.key) refl same
execute-RowStep (takes j owner_id lease_seconds token observed) now k r t h =
    update_row _ k r t h j (takeable observed now) (taken owner_id lease_seconds token now) (t.at j)
      refl same (λ e. took e)
execute-RowStep (renews j f lease_seconds) now k r t h =
    update_row _ k r t h j _ _ (t.at j) refl same
      (λ e. let (a, b) = &&-eq-true (carries f r) (is_open r.status) e in renewed a b)
execute-RowStep (creates j sandbox_id f) now k r t h =
    update_row _ k r t h j _ _ (t.at j) refl same
      (λ e. let (a, b) = &&-eq-true (carries f r) (is_pending r.status) e in made a b)
execute-RowStep (completes j o f) now k r t h =
    update_row _ k r t h j _ _ (t.at j) refl same
      (λ e. let (a, b) = &&-eq-true (carries f r) (is_open r.status) e in done a b)
