-- ===== src/Sandbox/Expired.antt =====
-- `list_expired` of the ledger in the database beside the in-memory ledger's (map_core/map_core/service/sandbox_ledger.py).
use map.Base.{
  ℕ, zero, suc, ◌&&◌, not, Option, List, [], ◌∷◌, leb, take, ◌≡◌, refl, sym, ap, ◌∙◌, Bool-cases,
  Option-cases, inl, inr,
}
use map.Sandbox.{is_terminal, Key, Record, ok, Table, values_of, select, insert_by, sort_by}
use map.Sandbox.Memory
use map.Sandbox.Operations
use map.Sandbox.Memory.{expired}
use map.Sandbox.Operations.{records_of}
use map.Sandbox.Postgres.{Row, record_from_row, World, lapsed, is_open}
use map.Sandbox.Refinement.{quiet, start, view, view_option, seen, expired-lapsed}

values_of-view :
    (w : World) (at : Key → Option Row) (keys : List Key)
    → values_of (λ k. view_option (at k)) keys ≡ records_of w (values_of at keys)
unfolding values_of records_of
values_of-view w at [] = refl
values_of-view w at (k ∷ keys) = elim (Option-cases (at k)) [
  | inl e ↦ rw (e, values_of) (values_of-view w at keys)
  | inr (r, e) ↦ rw (e, values_of) (ap (λ x. record_from_row r ∷ x) (values_of-view w at keys))
]

module _ (w : World) (now : ℕ) where
  select-view :
      (rs : List Row)
      → select (λ r. not (is_terminal r.status) && expired now r) (records_of w rs)
        ≡ records_of w (select (λ r. is_open r.status && lapsed r.lease_expires_at now) rs)
  unfolding select records_of record_from_row
  select-view [] = refl
  select-view (r ∷ rs) = elim (Bool-cases (is_terminal r.status)) [
    | inl e ↦ rw (expired-lapsed now r, e, select-view rs) refl
    | inr e ↦ elim (Bool-cases (lapsed r.lease_expires_at now)) [
      | inl d ↦ rw (expired-lapsed now r, e, d, select-view rs) refl
      | inr d ↦ rw (expired-lapsed now r, e, d, select-view rs) refl
    ]
  ]

insert_by-view :
    (w : World) (r : Row) (rs : List Row)
    → insert_by (λ x. x.updated_at) (record_from_row r) (records_of w rs)
      ≡ records_of w (insert_by (λ x. x.updated_at) r rs)
unfolding insert_by records_of record_from_row
insert_by-view w r [] = refl
insert_by-view w r (x ∷ xs) = elim (Bool-cases (leb r.updated_at x.updated_at)) [
  | inl e ↦ rw e refl
  | inr e ↦ rw (e, insert_by-view w r xs) refl
]

sort_by-view :
    (w : World) (rs : List Row)
    → sort_by (λ x. x.updated_at) (records_of w rs) ≡ records_of w (sort_by (λ x. x.updated_at) rs)
unfolding sort_by records_of
sort_by-view w [] = refl
sort_by-view w (r ∷ rs) =
    ap (insert_by (λ x. x.updated_at) (record_from_row r)) (sort_by-view w rs)
    ∙ insert_by-view w r (sort_by (λ x. x.updated_at) rs)

take-view :
    (w : World) (n : ℕ) (rs : List Row) → take n (records_of w rs) ≡ records_of w (take n rs)
unfolding records_of
take-view w zero rs = refl
take-view w (suc n) [] = refl
take-view w (suc n) (r ∷ rs) = ap (λ x. record_from_row r ∷ x) (take-view w n rs)

-- When nobody else interferes, `list_expired` of the database ledger returns the records that the in-memory ledger does, in the same order,
-- and changes nothing, if ties are read in the order of insertion.
pub list_expired-refines :
    (limit now token : ℕ) (t : Table Row)
    → seen (Operations.list_expired (quiet now token) limit (start t))
      ≡ (view t, ok (Memory.list_expired limit now (view t)))
unfolding Operations.list_expired Memory.list_expired
list_expired-refines limit now token t =
    let w : World = quiet now token in
    let pick : List Record → List Record =
      select (λ r. not (is_terminal r.status) && expired now r) in
    let rows : List Row = values_of t.at t.order in
    let due : List Row = select (λ r. is_open r.status && lapsed r.lease_expires_at now) rows in
    let chosen = ap pick (values_of-view w t.at t.order) ∙ select-view w now rows in
    let sorted = ap (sort_by (λ r. r.updated_at)) chosen ∙ sort_by-view w due in
    ap (λ rs. (view t, ok rs))
      (sym (ap (take limit) sorted ∙ take-view w limit (sort_by (λ r. r.updated_at) due)))
