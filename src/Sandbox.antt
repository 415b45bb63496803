-- ===== src/Sandbox.antt =====
-- map_core/map_core/service/sandbox_ledger.py: the ledger of sandbox invocations. This file has what its two
-- implementations share: the record, the fence, the outcomes, and the keyed table over which both are written. Owners, tokens
-- and times are numbers (times in microseconds); texts that are only stored or compared are texts; a JSON object is its text.
pub mod Memory
pub mod Postgres
pub mod Refinement
pub mod Takeover
pub mod Expired
pub mod Operations
pub mod History
pub mod Ownership
pub mod Leases
pub mod Examples
use map.Base.{
  ℕ, zero, suc, ◌+◌, String, Bool, true, false, ◌&&◌, ◌||◌, not, Option, none, some, List, [], ◌∷◌,
  ◌++◌, str_eq, leb, ltb, ◌==◌, if◌then◌else◌, take,
}

pub data Status : Type 0 where
  pending created succeeded failed unknown : Status

-- `TERMINAL_STATUSES`
abbrev pub is_terminal : Status → Bool
is_terminal pending = false
is_terminal created = false
is_terminal _ = true

-- The primary key `(workspace_id, invocation_id)`.
pub record Key : Type 0 where
  pub workspace_id : String
  pub invocation_id : String

abbrev pub same_key : Key → Key → Bool
same_key a b = str_eq a.workspace_id b.workspace_id && str_eq a.invocation_id b.invocation_id

-- `SandboxInvocationFence`
pub record Fence : Type 0 where
  pub token : ℕ
  pub owner_id : ℕ
  pub attempt : ℕ

-- `SandboxInvocationRecord`; a time of 0 stands for none.
pub record Record : Type 0 where
  pub key : Key
  pub request_digest : String
  pub create_key : String
  pub execute_key : String
  pub status : Status
  pub sandbox_id : Option String
  pub output : Option String
  pub error : Option String
  pub server_state : Option String
  pub request_payload : Option String
  pub owner_id : Option ℕ
  pub lease_expires_at : ℕ
  pub fencing_token : Option ℕ
  pub attempt : ℕ
  pub created_at : ℕ
  pub completed_at : ℕ
  pub updated_at : ℕ

-- `ClaimOutcome`
pub data ClaimOutcome : Type 0 where
  owned : Record → Fence → ClaimOutcome
  takeover : Record → Fence → ClaimOutcome
  replay : Record → ClaimOutcome
  conflict : Record → ClaimOutcome
  in_progress : Record → ClaimOutcome
  gone : ClaimOutcome

-- `SandboxLedgerError` and `SandboxOwnershipLost`
pub data LedgerError : Type 0 where
  ledger_error : String → LedgerError
  ownership_lost : LedgerError

pub data Result (A : Type 0) : Type 0 where
  ok : A → Result A
  err : LedgerError → Result A

-- The arguments of `claim`. `token` is what `new_fence` mints for a new row, `takeover_token` for a takeover.
pub record ClaimArgs : Type 0 where
  pub key : Key
  pub request_digest : String
  pub create_key : String
  pub execute_key : String
  pub request_payload : String
  pub owner_id : ℕ
  pub lease_seconds : ℕ
  pub token : ℕ
  pub takeover_token : ℕ
  pub now : ℕ

pub record TakeoverArgs : Type 0 where
  pub key : Key
  pub owner_id : ℕ
  pub lease_seconds : ℕ
  pub token : ℕ
  pub now : ℕ

-- The arguments of `complete`.
pub record Outcome : Type 0 where
  pub status : Status
  pub sandbox_id : Option String
  pub output : Option String
  pub error : Option String
  pub server_state : Option String

abbrev pub equals : Option ℕ → ℕ → Bool
equals none n = false
equals (some m) n = m == n

abbrev pub or_else {ℓ} : {A : Type ℓ} → Option A → Option A → Option A
or_else none d = d
or_else (some a) d = some a

-- A table by primary key, and its keys in the order of insertion.
pub record Table (R : Type 0) : Type 0 where
  pub order : List Key
  pub at : Key → Option R

module _ {R : Type 0} where
  unfoldable pub write : Key → R → (Key → Option R) → Key → Option R
  write k r rows j = if same_key k j then some r else rows j

  abbrev pub order_after : Key → Option R → List Key → List Key
  order_after k none keys = keys ++ k ∷ []
  order_after k (some r) keys = keys

  -- `rows[key] = row`
  unfoldable pub put : Key → R → Table R → Table R
  unfolding write
  put k r t = record { order = order_after k (t.at k) t.order; at = write k r t.at }

  -- The rows in their order.
  unfoldable pub values_of : (Key → Option R) → List Key → List R
  values_of rows [] = []
  values_of rows (k ∷ keys) = elim (rows k) [
    | none ↦ values_of rows keys
    | some r ↦ r ∷ values_of rows keys
  ]

  unfoldable pub select : (R → Bool) → List R → List R
  select p [] = []
  select p (r ∷ rs) = let rest = select p rs in if p r then r ∷ rest else rest

  -- A stable sort by a number, ascending.
  unfoldable pub insert_by : (R → ℕ) → R → List R → List R
  insert_by f r [] = r ∷ []
  insert_by f r (x ∷ xs) =
      let rest = insert_by f r xs in if leb (f r) (f x) then r ∷ x ∷ xs else x ∷ rest

  unfoldable pub sort_by : (R → ℕ) → List R → List R
  unfolding insert_by
  sort_by f [] = []
  sort_by f (r ∷ rs) = insert_by f r (sort_by f rs)
