-- ===== src/Sandbox/Leases.antt =====
-- The leases of the ledger in the database (map_core/map_core/service/sandbox_ledger.py).
use map.Base.{
  ℕ, ◌+◌, ◌≤◌, ◌<◌, true, false, Option, none, some, List, [], ◌∷◌, ◌≡◌, ◌≢◌, ◌⊎◌, refl, sym,
  Bool-cases, inl, inr, arith, All, ==_iff, &&-eq-true,
}
use map.Sandbox.{is_terminal, Key, ClaimArgs, Table}
use map.Sandbox.Memory.{seconds}
use map.Sandbox.Postgres.{
  Row, Statement, inserts, takes, renews, execute, execute_all, carries, takeable, taken, completed,
  update_at, insert_at, new_row,
}
use map.Sandbox.History.{RowOf, RowStep, same, took, renewed, made, done, execute-RowStep}
use map.Sandbox.Ownership.{Issued}
use map.Sandbox.Takeover.{put_at}

-- The statements by which a caller becomes the owner of a row: its key, the token and the lease.
pub data Grants : Statement → Key → ℕ → ℕ → Type 0 where
  by_claim : (c : ClaimArgs) → Grants (inserts c) c.key c.token c.lease_seconds
  by_takeover :
      (k : Key) (owner_id lease_seconds token : ℕ) (observed : Option ℕ)
      → Grants (takes k owner_id lease_seconds token observed) k token lease_seconds

-- Not a renewal by the owner itself, which could shorten its lease.
abbrev pub Foreign : ℕ → Statement → Type 0
Foreign token (renews k f lease_seconds) = f.token ≢ token
Foreign token _ = Unit

-- The row belongs to `token` until a time, or has ended.
abbrev pub HeldUntil : ℕ → ℕ → Row → Type 0
HeldUntil token until r =
    (is_terminal r.status ≡ true)
    ⊎ ((r.fencing_token ≡ some token) × ((u : ℕ) × (r.lease_expires_at ≡ some u) × (until ≤ u)))

granted :
    (st : Statement) (k : Key) (token lease_seconds now : ℕ) (t : Table Row)
    → Grants st k token lease_seconds
    → (execute st now t).1 ≡ true
    → RowOf (HeldUntil token (now + seconds lease_seconds)) k (execute st now t).0
unfolding execute insert_at update_at
granted st k token lease_seconds now t (by_claim c) h = go (t.at c.key) h
  where
    go :
        (o : Option Row)
        → (insert_at c.key (new_row c now) o t).1 ≡ true
        → RowOf
            (HeldUntil c.token (now + seconds c.lease_seconds))
            c.key
            (insert_at c.key (new_row c now) o t).0
    go none g = (new_row c now, put_at c.key (new_row c now) t, inr (refl, (_, refl, omega arith)))
    go (some r) g = cc
granted st k token lease_seconds now t (by_takeover j owner_id n m observed) h = go (t.at j) h
  where
    go :
        (o : Option Row)
        → (update_at j (takeable observed now) (taken owner_id n m now) o t).1 ≡ true
        → RowOf
            (HeldUntil m (now + seconds n))
            j
            (update_at j (takeable observed now) (taken owner_id n m now) o t).0
    go none g = cc
    go (some r) g = elim (Bool-cases (takeable observed now r)) [
      | inl e ↦ rw e (_, put_at j (taken owner_id n m now r) t, inr (refl, (_, refl, omega arith)))
      | inr e ↦ absurd (let z : false ≡ true = rw e at g in cc)
    ]

takeable-HeldUntil :
    (token until now : ℕ) (observed : Option ℕ) (r : Row)
    → HeldUntil token until r
    → now < until
    → takeable observed now r ≡ false
unfolding takeable
takeable-HeldUntil token until now observed r (inl e) h = rw e refl
takeable-HeldUntil token until now observed r (inr (g, (u, e, l))) h = rw e (ground arith)

RowStep-HeldUntil :
    {now token until : ℕ} {r r' : Row} {st : Statement}
    → Issued st
    → Foreign token st
    → now < until
    → HeldUntil token until r
    → RowStep now r st r'
    → HeldUntil token until r'
unfolding takeable taken completed carries
RowStep-HeldUntil issued foreign h held same = held
RowStep-HeldUntil {now} {token} {until} {r} issued foreign h held (took {observed = observed} e) =
    absurd (let p = takeable-HeldUntil token until now observed r held h in cc)
RowStep-HeldUntil issued foreign h (inl e) (renewed a b) = inl e
RowStep-HeldUntil {token = token} issued foreign h (inr (g, l)) (renewed {f = f} a b) =
    absurd (foreign (sym ((==_iff token f.token).0 (&&-eq-true _ _ (rw g at a)).0)))
RowStep-HeldUntil issued foreign h (inl e) (made a b) = absurd (ground arith)
RowStep-HeldUntil issued foreign h (inr g) (made a b) = inr g
RowStep-HeldUntil issued foreign h held (done a b) = inl issued

-- What happens before `until`, the owner's own renewals apart.
abbrev pub Meanwhile : ℕ → ℕ → ℕ × Statement → Type 0
Meanwhile token until (now, st) = (now < until) × Issued st × Foreign token st

execute_all-HeldUntil :
    (token until : ℕ) (es : List (ℕ × Statement)) (t : Table Row) (k : Key)
    → All (Meanwhile token until) es
    → RowOf (HeldUntil token until) k t
    → RowOf (HeldUntil token until) k (execute_all es t)
unfolding execute_all
execute_all-HeldUntil token until [] t k a h = h
execute_all-HeldUntil token until ((now, st) ∷ es) t k ((early, issued, foreign), a) (r, h, held) =
    let (x, h', s) = execute-RowStep st now k r t h in
    execute_all-HeldUntil token until es (execute st now t).0 k a
      (x, h', RowStep-HeldUntil issued foreign early held s)

refused_grant :
    (st : Statement) (k : Key) (m n later token until : ℕ) (t : Table Row)
    → Grants st k m n
    → later < until
    → RowOf (HeldUntil token until) k t
    → (execute st later t).1 ≡ false
unfolding execute insert_at update_at
refused_grant st k m n later token until t (by_claim c) early (r, h, held) = rw h refl
refused_grant st k m n later token until t (by_takeover j owner_id x y observed) early
      (r, h, held) =
    rw h (rw (takeable-HeldUntil token until later observed r held early) refl)

-- One owner at a time: once a claim or a takeover of a key has been granted, then until its lease runs out no
-- other claim or takeover of the key is granted, whatever statements other callers execute in between
-- (`complete` only with a terminal status, as the code issues it), renewals under the granted token apart, which
-- set a new end.
pub lease_exclusive :
    (grant : Statement) (k : Key) (token lease_seconds now : ℕ) (t : Table Row)
    → Grants grant k token lease_seconds
    → (execute grant now t).1 ≡ true
    → (es : List (ℕ × Statement)) → All (Meanwhile token (now + seconds lease_seconds)) es
    → (other : Statement) (m n later : ℕ) → Grants other k m n
    → later < now + seconds lease_seconds
    → (execute other later (execute_all es (execute grant now t).0)).1 ≡ false
lease_exclusive grant k token lease_seconds now t g won es a other m n later g' early =
    refused_grant other k m n later token (now + seconds lease_seconds) _ g' early (
      execute_all-HeldUntil token (now + seconds lease_seconds) es _ k a
        (granted grant k token lease_seconds now t g won))
