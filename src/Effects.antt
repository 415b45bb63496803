-- ===== src/Effects.antt =====
-- The effect ledger of map-business-backend/app/workers/job_runner.py (`EffectGuard`) over the table of
-- app/db/models/effect.py: one row for each (workspace_id, effect_key), which the unique index makes a
-- function. An UPDATE on that key is a function of its row. Ids, owners and tokens, which are only compared, are
-- numbers; times are microseconds of the database. `uuid.uuid4()` mints the next number of the ledger's
-- supply, so that tokens are never reused. A key has passed `_require_key`, with which every method begins.
pub mod World
pub mod Resolve
pub mod Guard
pub mod Fencing
pub mod Rows
pub mod History
pub mod Decisions
pub mod Delivery
pub mod Methods
pub mod Onward
pub mod Held
pub mod Quiet
pub mod Returns
pub mod Terminal
pub mod Fresh
pub mod Examples
use map.Base.{
  ℕ, zero, suc, ◌+◌, String, Bool, true, false, ◌&&◌, ◌||◌, Option, none, some, List, [], ◌∷◌,
  str_eq, ltb, leb, ◌==◌, if◌then◌else◌,
}

pub data EffectStatus : Type 0 where
  pending dispatching delivered uncertain : EffectStatus

pub record Row : Type 0 where
  pub job_id : Option ℕ
  pub status : EffectStatus
  pub attempts : ℕ
  pub last_outcome : Option String
  pub dispatch_token : Option ℕ
  pub dispatch_owner : Option ℕ
  pub dispatch_attempt : Option ℕ
  pub dispatch_expires_at : Option ℕ

-- `DispatchFence`
pub record Fence : Type 0 where
  pub token : ℕ
  pub owner : ℕ
  pub attempt : ℕ

-- `DispatchSnapshot`
pub record Snapshot : Type 0 where
  pub status : Option EffectStatus
  pub token : Option ℕ
  pub owner : Option ℕ
  pub attempt : Option ℕ
  pub lease_alive : Bool

abbrev pub is_pending : EffectStatus → Bool
is_pending pending = true
is_pending _ = false

abbrev pub is_dispatching : EffectStatus → Bool
is_dispatching dispatching = true
is_dispatching _ = false

abbrev pub is_delivered : EffectStatus → Bool
is_delivered delivered = true
is_delivered _ = false

-- `column = value`, which holds of no NULL, and `IS NOT DISTINCT FROM`.
abbrev pub equals : Option ℕ → ℕ → Bool
equals none n = false
equals (some m) n = m == n

abbrev pub not_distinct : Option ℕ → Option ℕ → Bool
not_distinct none none = true
not_distinct none (some n) = false
not_distinct (some m) none = false
not_distinct (some m) (some n) = m == n

-- `_fence_predicate` and `_observed_predicate`
pub fence_predicate : Fence → Row → Bool
fence_predicate f r =
    equals r.dispatch_token f.token
    && (equals r.dispatch_owner f.owner && equals r.dispatch_attempt f.attempt)

pub observed_predicate : Snapshot → Row → Bool
observed_predicate o r =
    not_distinct r.dispatch_token o.token
    && (not_distinct r.dispatch_owner o.owner && not_distinct r.dispatch_attempt o.attempt)

-- `UPDATE ... WHERE key AND p SET f`, at the row of the key, and its rowcount.
pub update_row : (Row → Bool) → (Row → Row) → Option Row → Option Row × Bool
update_row p f none = (none, false)
update_row p f (some r) = if p r then (some (f r), true) else (some r, false)

-- `record_intent`: INSERT ... ON CONFLICT DO NOTHING
pub intent_row : Option ℕ → Option Row → Option Row
intent_row job_id (some r) = some r
intent_row job_id none = some (record {
  job_id = job_id;
  status = pending;
  attempts = 0;
  last_outcome = none;
  dispatch_token = none;
  dispatch_owner = none;
  dispatch_attempt = none;
  dispatch_expires_at = none;
})

-- The SET clause of `begin_dispatch` and, but for the status, of `adopt_dispatch`.
pub dispatched : Fence → ℕ → Row → Row
dispatched f until r = record r {
  status = dispatching;
  attempts = r.attempts + 1;
  dispatch_token = some f.token;
  dispatch_owner = some f.owner;
  dispatch_attempt = some f.attempt;
  dispatch_expires_at = some until;
}

pub begin_row : Fence → ℕ → Option Row → Option Row × Bool
unfolding update_row dispatched
begin_row f until = update_row (λ r. is_pending r.status) (dispatched f until)

-- A NULL lease counts as expired.
abbrev pub lapsed : Option ℕ → ℕ → Bool
lapsed none now = true
lapsed (some t) now = leb t now

pub adoptable : Snapshot → ℕ → Row → Bool
unfolding observed_predicate
adoptable o now r =
    is_dispatching r.status && (observed_predicate o r && lapsed r.dispatch_expires_at now)

pub adopted : Fence → ℕ → Row → Row
adopted f until r = record r {
  attempts = r.attempts + 1;
  dispatch_token = some f.token;
  dispatch_owner = some f.owner;
  dispatch_attempt = some f.attempt;
  dispatch_expires_at = some until;
}

pub adopt_row : Snapshot → ℕ → Fence → ℕ → Option Row → Option Row × Bool
unfolding update_row adoptable adopted
adopt_row o now f until = update_row (adoptable o now) (adopted f until)

pub ended : EffectStatus → String → Row → Row
ended s outcome r = record r { status = s; last_outcome = some outcome }

pub owns : Fence → Row → Bool
unfolding fence_predicate
owns f r = is_dispatching r.status && fence_predicate f r

pub ack_row : Fence → Option Row → Option Row × Bool
unfolding update_row owns ended
ack_row f = update_row (owns f) (ended delivered "confirmed")

pub confirmable : Snapshot → Row → Bool
unfolding observed_predicate
confirmable o r = (is_pending r.status || is_dispatching r.status) && observed_predicate o r

pub confirm_row : Snapshot → Option Row → Option Row × Bool
unfolding update_row confirmable ended
confirm_row o = update_row (confirmable o) (ended delivered "confirmed-by-provider-query")

-- `text[:n]`
unfoldable pub clip : ℕ → String → String
clip zero text = ""
clip (suc n) String.[] = ""
clip (suc n) (String.◌∷◌ c text) = String.◌∷◌ c (clip n text)

-- `(reason or "unknown")[:2000]`
pub outcome_text : Option String → String
unfolding clip
outcome_text none = "unknown"
outcome_text (some reason) = if str_eq reason "" then "unknown" else clip 2000 reason

pub uncertain_row : Fence → Option String → Option Row → Option Row × Bool
unfolding update_row owns ended outcome_text
uncertain_row f reason = update_row (owns f) (ended uncertain (outcome_text reason))

-- `dispatch_expires_at > now()`, as `bool()` reads a NULL
abbrev pub alive : Option ℕ → ℕ → Bool
alive none now = false
alive (some t) now = ltb now t

pub snapshot_row : ℕ → Option Row → Snapshot
snapshot_row now none = record {
  status = none;
  token = none;
  owner = none;
  attempt = none;
  lease_alive = false;
}
snapshot_row now (some r) = record {
  status = some r.status;
  token = r.dispatch_token;
  owner = r.dispatch_owner;
  attempt = r.dispatch_attempt;
  lease_alive = alive r.dispatch_expires_at now;
}

-- The table and the supply of tokens.
pub record Slot : Type 0 where
  pub workspace_id : ℕ
  pub effect_key : String

pub record Ledger : Type 0 where
  pub rows : Slot → Option Row
  pub minted : ℕ

abbrev pub same_slot : Slot → Slot → Bool
same_slot a b = a.workspace_id == b.workspace_id && str_eq a.effect_key b.effect_key

pub write : Slot → Option Row → (Slot → Option Row) → Slot → Option Row
write s o rows t = if same_slot s t then o else rows t

-- The statements that change the ledger, each committed in its own transaction.
pub data Statement : Type 0 where
  record_intent : Option ℕ → Statement
  begin_dispatch : (owner attempt lease : ℕ) → Statement
  adopt_dispatch : (observed : Snapshot) → (owner attempt lease : ℕ) → Statement
  ack_effect : Fence → Statement
  confirm_provider_fact : Snapshot → Statement
  mark_uncertain : Fence → Option String → Statement

abbrev pub mint : Ledger → ℕ → ℕ → Fence
mint l owner attempt = record { token = l.minted; owner = owner; attempt = attempt }

-- The row that a statement leaves, whether it wrote, and the supply of tokens after it.
pub statement_row : Statement → ℕ → ℕ → Option Row → Option Row × Bool
unfolding intent_row begin_row adopt_row ack_row confirm_row uncertain_row
statement_row (record_intent job_id) token now o = (intent_row job_id o, true)
statement_row (begin_dispatch owner attempt lease) token now o =
    begin_row (record { token = token; owner = owner; attempt = attempt }) (now + lease) o
statement_row (adopt_dispatch observed owner attempt lease) token now o =
    adopt_row observed now (record { token = token; owner = owner; attempt = attempt })
      (now + lease) o
statement_row (ack_effect f) token now o = ack_row f o
statement_row (confirm_provider_fact observed) token now o = confirm_row observed o
statement_row (mark_uncertain f reason) token now o = uncertain_row f reason o

abbrev pub mints : Statement → Bool
mints (begin_dispatch _ _ _) = true
mints (adopt_dispatch _ _ _ _) = true
mints _ = false

pub execute : Statement → Slot → ℕ → Ledger → Ledger × Bool
unfolding statement_row write
execute st s now l =
    let (o, ok) = statement_row st l.minted now (l.rows s) in
    (record { rows = write s o l.rows; minted = if mints st then suc l.minted else l.minted }, ok)
