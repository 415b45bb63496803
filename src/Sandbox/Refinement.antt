-- ===== src/Sandbox/Refinement.antt =====
-- The ledger in the database beside the in-memory one (map_core/map_core/service/sandbox_ledger.py): what a caller sees, when no
-- other caller's statement falls between its own.
use map.Base.{
  ℕ, ◌+◌, String, Bool, true, false, ◌&&◌, Option, none, some, List, [], if◌then◌else◌, ◌≡◌, refl,
  ap, ◌∙◌, fun_ext, Bool-cases, Option-cases, inl, inr, arith,
}
use map.Sandbox.{
  created, is_terminal, Key, Fence, Record, Result, ok, err, Outcome, Table, write, put, same_key,
  ownership_lost,
}
use map.Sandbox.Memory
use map.Sandbox.Operations
use map.Sandbox.Postgres
use map.Sandbox.Memory.{Ledger, expired, is_pending}
use map.Sandbox.Postgres.{
  Row, record_from_row, World, Session, fine, lapsed, is_open, update_at, carries, insert_at,
  new_row, Statement, completed,
}

-- Nobody else executes anything, the driver answers, and all statements are executed at one time.
abbrev pub quiet : ℕ → ℕ → World
quiet now token = record { others = λ n. []; now = λ n. now; faults = λ n. fine; mint = λ n. token }

abbrev pub start : Table Row → Session
start t = record { table = t; step = 0 }

abbrev pub view_option : Option Row → Option Record
view_option none = none
view_option (some r) = some (record_from_row r)

-- The in-memory ledger with the records of a table.
abbrev pub view : Table Row → Ledger
view t = record {
  rows = record { order = t.order; at = λ k. view_option (t.at k) };
  fail_complete_next = false;
  fail_record_created_next = false;
}

-- What an operation leaves and answers, as the caller sees it.
abbrev pub seen {ℓ} : {A : Type ℓ} → Session × A → Ledger × A
seen (s, a) = (view s.table, a)

same_table :
    {R : Type 0} (a b : List Key) (f g : Key → Option R)
    → a ≡ b
    → f ≡ g
    → ◌≡◌ {A = Table R} (record { order = a; at = f }) (record { order = b; at = g })
same_table a b f g p q = cc

pub put-view :
    (k : Key) (r : Row) (t : Table Row)
    → ◌≡◌ {A = Table Record}
        (record { order = (put k r t).order; at = λ j. view_option ((put k r t).at j) })
        (put k (record_from_row r) (record { order = t.order; at = λ j. view_option (t.at j) }))
unfolding put write
put-view k r t =
    same_table _ _ _ _ (elim (Option-cases (t.at k)) [ inl e ↦ rw e refl | inr (x, e) ↦ rw e refl ])
      (fun_ext (λ j. elim (Bool-cases (same_key k j)) [ inl e ↦ rw e refl | inr e ↦ rw e refl ]))

-- The two ledgers agree on when a lease has run out.
pub expired-lapsed :
    (now : ℕ) (r : Row) → expired now (record_from_row r) ≡ lapsed r.lease_expires_at now
unfolding expired record_from_row
expired-lapsed now r = elim (Option-cases r.lease_expires_at) [
  | inl e ↦ rw e (ground arith)
  | inr (x, e) ↦ rw e (ground arith)
]

abbrev pub ledger_of : Table Record → Ledger
ledger_of t = record { rows = t; fail_complete_next = false; fail_record_created_next = false }

same_carries : (f : Fence) (r : Row) → Memory.carries f (record_from_row r) ≡ carries f r
unfolding Memory.carries carries record_from_row
same_carries f r = refl

-- What the caller of a statement is told, by its rowcount.
abbrev told {ℓ} : {A : Type ℓ} → (Bool → A) → Table Row × Bool → Ledger × A
told f (t, b) = (view t, f b)

update_told {ℓ} :
    {A : Type ℓ} (g : Bool → A) (b : Bool) (k : Key) (r : Row) (t : Table Row)
    → told g (if◌then◌else◌ {A = Table Row × Bool} b (put k r t, true) (t, false)) ≡ (
        if◌then◌else◌ {A = Ledger × A} b
          (Memory.set_row k (record_from_row r) (view t), g true)
          (view t, g false))
update_told g true k r t = ap (λ x. (ledger_of x, g true)) (put-view k r t)
update_told g false k r t = refl

module _ (k : Key) (f : Fence) (lease_seconds now token : ℕ) (t : Table Row) where
  -- When nobody else interferes, `renew` of the database ledger answers and leaves what the in-memory ledger does.
  pub renew-refines :
      seen (Operations.renew (quiet now token) k f lease_seconds (start t))
      ≡ (let (l, b) = Memory.renew k f lease_seconds now (view t) in (l, ok b))
  unfolding Operations.renew Memory.renew record_from_row
  renew-refines = go (t.at k)
    where
      go :
          (o : Option Row)
          → told ok (
              update_at k
                (λ r. carries f r && is_open r.status)
                (λ r. record r {
                  lease_expires_at = some (now + Memory.seconds lease_seconds);
                  updated_at = now;
                })
                o
                t)
            ≡ (let (l, b) = Memory.renew_row k f lease_seconds now (view_option o) (view t) in
                (l, ok b))
      go none = refl
      go (some r) =
          update_told ok (carries f r && is_open r.status) k
            (record r {
              lease_expires_at = some (now + Memory.seconds lease_seconds);
              updated_at = now;
            })
            t
          ∙ elim (Bool-cases (carries f r)) [
            | inl e ↦ elim (Bool-cases (is_terminal r.status)) [
              | inl q ↦ rw (same_carries f r, e, q) refl
              | inr q ↦ rw (same_carries f r, e, q) refl
            ]
            | inr e ↦ elim (Bool-cases (is_terminal r.status)) [
              | inl q ↦ rw (same_carries f r, e, q) refl
              | inr q ↦ rw (same_carries f r, e, q) refl
            ]
          ]

abbrev settled_by : Bool → Result (Unit {0})
settled_by true = ok tt
settled_by false = err ownership_lost

require_told :
    (w : World) (u : Table Row × Bool)
    → seen (Operations.require_update w u.1 (record { table = u.0; step = 1 })) ≡ told settled_by u
unfolding Operations.require_update
require_told w (t, true) = refl
require_told w (t, false) = refl

module _ (k : Key) (sandbox_id : String) (f : Fence) (now token : ℕ) (t : Table Row) where
  -- When nobody else interferes, `record_created` of the database ledger answers or raises, and leaves, what the in-memory ledger does.
  pub record_created-refines :
      seen (Operations.record_created (quiet now token) k sandbox_id f (start t))
      ≡ Memory.record_created k sandbox_id f now (view t)
  unfolding Operations.record_created Memory.record_created record_from_row
  record_created-refines =
      require_told (quiet now token) (
        update_at k (λ r. carries f r && is_pending r.status)
          (λ r. record r { status = created; sandbox_id = some sandbox_id; updated_at = now })
          (t.at k) t)
      ∙ go (t.at k)
    where
      go :
          (o : Option Row)
          → told settled_by (
              update_at k
                (λ r. carries f r && is_pending r.status)
                (λ r. record r { status = created; sandbox_id = some sandbox_id; updated_at = now })
                o
                t)
            ≡ Memory.created_row k sandbox_id f now (view_option o) (view t)
      go none = refl
      go (some r) =
          update_told settled_by (carries f r && is_pending r.status) k
            (record r { status = created; sandbox_id = some sandbox_id; updated_at = now }) t
          ∙ elim (Bool-cases (carries f r)) [
            | inl e ↦ elim (Bool-cases (is_pending r.status)) [
              | inl q ↦ rw (same_carries f r, e, q) refl
              | inr q ↦ rw (same_carries f r, e, q) refl
            ]
            | inr e ↦ elim (Bool-cases (is_pending r.status)) [
              | inl q ↦ rw (same_carries f r, e, q) refl
              | inr q ↦ rw (same_carries f r, e, q) refl
            ]
          ]

decode-dumps : (o : Option String) → Postgres.decode_jsonb_object (Postgres.dumps o) ≡ o
unfolding Postgres.decode_jsonb_object
decode-dumps none = refl
decode-dumps (some text) = refl

module _ (k : Key) (x : Outcome) (f : Fence) (now token : ℕ) (t : Table Row) where
  completed_view :
      (r : Row) → record_from_row (completed x now r) ≡ Memory.completed x now (record_from_row r)
  unfolding record_from_row completed Memory.completed
  completed_view r = rw (decode-dumps x.server_state) refl

  -- When nobody else interferes, `complete` of the database ledger answers or raises, for any status, and leaves, what the in-memory ledger
  -- does.
  pub complete-refines :
      seen (Operations.complete (quiet now token) k x f (start t))
      ≡ Memory.complete k x f now (view t)
  unfolding Operations.complete Memory.complete record_from_row
  complete-refines = elim (Bool-cases (is_terminal x.status)) [
    | inl h ↦ rw h (
        require_told (quiet now token)
          (update_at k (λ r. carries f r && is_open r.status) (completed x now) (t.at k) t)
        ∙ go (t.at k))
    | inr h ↦ rw h refl
  ]
    where
      go :
          (o : Option Row)
          → told settled_by
              (update_at k (λ r. carries f r && is_open r.status) (completed x now) o t)
            ≡ Memory.complete_row k x f now (view_option o) (view t)
      go none = refl
      go (some r) =
          update_told settled_by (carries f r && is_open r.status) k (completed x now r) t
          ∙ elim (Bool-cases (carries f r)) [
            | inl e ↦ elim (Bool-cases (is_terminal r.status)) [
              | inl q ↦ rw (same_carries f r, e, q) refl
              | inr q ↦ rw (same_carries f r, e, q, completed_view r) refl
            ]
            | inr e ↦ elim (Bool-cases (is_terminal r.status)) [
              | inl q ↦ rw (same_carries f r, e, q) refl
              | inr q ↦ rw (same_carries f r, e, q) refl
            ]
          ]

abbrev pub answer : {A : Type 0} → Ledger × A → Ledger × Result A
answer (l, a) = (l, ok a)

-- When nobody else interferes, `get` of the database ledger returns the in-memory ledger's record and changes nothing.
pub get-refines :
    (k : Key) (now token : ℕ) (t : Table Row)
    → seen (Operations.get (quiet now token) k (start t)) ≡ (view t, ok (Memory.get k (view t)))
unfolding Operations.get Memory.get
get-refines k now token t = go (t.at k)
  where
    go :
        (o : Option Row)
        → ◌≡◌ {A = Ledger × Result (Option Record)}
            (view t, ok (Operations.record_option (quiet now token) o))
            (view t, ok (view_option o))
    go none = refl
    go (some r) = refl
