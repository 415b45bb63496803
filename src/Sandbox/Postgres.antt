-- ===== src/Sandbox/Postgres.antt =====
-- `PostgresSandboxInvocationLedger` of map_core/map_core/service/sandbox_ledger.py: its statements over the table
-- map_control.sandbox_invocations, whose primary key makes it a function of the key, and its operations, which run them one by one
-- among the statements of other callers. Every statement is committed by itself and reads its own `now()`.
use map.Base.{
  ℕ, suc, ◌+◌, String, Bool, true, false, ◌&&◌, not, Option, none, some, List, [], ◌∷◌, ◌==◌, leb,
  if◌then◌else◌,
}
use map.Sandbox.{
  Status, pending, created, is_terminal, Key, Fence, Record, LedgerError, Result, ok, err,
  ClaimArgs, Outcome, equals, or_else, Table, put,
}
use map.Sandbox.Memory.{seconds, is_pending}

-- A value of a jsonb column: an object, or another JSON value.
pub data Json : Type 0 where
  object other : String → Json

pub record Row : Type 0 where
  pub key : Key
  pub request_digest : String
  pub create_key : String
  pub execute_key : String
  pub status : Status
  pub sandbox_id : Option String
  pub output : Option String
  pub error : Option String
  pub server_state : Option Json
  pub request_payload : Option Json
  pub owner_id : Option ℕ
  pub lease_expires_at : Option ℕ
  pub fencing_token : Option ℕ
  pub attempt : ℕ
  pub created_at : ℕ
  pub completed_at : Option ℕ
  pub updated_at : ℕ

-- `_decode_jsonb_object`
unfoldable pub decode_jsonb_object : Option Json → Option String
decode_jsonb_object none = none
decode_jsonb_object (some (object text)) = some text
decode_jsonb_object (some (other text)) = none

abbrev pub timestamp : Option ℕ → ℕ
timestamp none = 0
timestamp (some t) = t

-- `_record_from_row`
unfoldable pub record_from_row : Row → Record
unfolding decode_jsonb_object
record_from_row r = record {
  key = r.key;
  request_digest = r.request_digest;
  create_key = r.create_key;
  execute_key = r.execute_key;
  status = r.status;
  sandbox_id = r.sandbox_id;
  output = r.output;
  error = r.error;
  server_state = decode_jsonb_object r.server_state;
  request_payload = decode_jsonb_object r.request_payload;
  owner_id = r.owner_id;
  lease_expires_at = timestamp r.lease_expires_at;
  fencing_token = r.fencing_token;
  attempt = r.attempt;
  created_at = r.created_at;
  completed_at = timestamp r.completed_at;
  updated_at = r.updated_at;
}

-- `json.dumps` of an object, or NULL
abbrev pub dumps : Option String → Option Json
dumps none = none
dumps (some text) = some (object text)

-- The statements that change the table.
pub data Statement : Type 0 where
  inserts : ClaimArgs → Statement
  takes : (k : Key) → (owner_id lease_seconds token : ℕ) → (observed : Option ℕ) → Statement
  renews : Key → Fence → ℕ → Statement
  creates : Key → String → Fence → Statement
  completes : Key → Outcome → Fence → Statement

unfoldable pub new_row : ClaimArgs → ℕ → Row
new_row c now = record {
  key = c.key;
  request_digest = c.request_digest;
  create_key = c.create_key;
  execute_key = c.execute_key;
  status = pending;
  sandbox_id = none;
  output = none;
  error = none;
  server_state = none;
  request_payload = some (object c.request_payload);
  owner_id = some c.owner_id;
  lease_expires_at = some (now + seconds c.lease_seconds);
  fencing_token = some c.token;
  attempt = 0;
  created_at = now;
  completed_at = none;
  updated_at = now;
}

-- `INSERT`, and whether it did not violate the primary key.
unfoldable pub insert_at : Key → Row → Option Row → Table Row → Table Row × Bool
insert_at k r none t = (put k r t, true)
insert_at k r (some old) t = (t, false)

-- `UPDATE ... SET f WHERE key AND p`, and its rowcount.
unfoldable pub update_at :
    Key → (Row → Bool) → (Row → Row) → Option Row → Table Row → Table Row × Bool
update_at k p f none t = (t, false)
update_at k p f (some r) t = if p r then (put k (f r) t, true) else (t, false)

abbrev pub not_distinct : Option ℕ → Option ℕ → Bool
not_distinct none none = true
not_distinct none (some n) = false
not_distinct (some m) none = false
not_distinct (some m) (some n) = m == n

-- `lease_expires_at IS NULL OR lease_expires_at <= now()`
abbrev pub lapsed : Option ℕ → ℕ → Bool
lapsed none now = true
lapsed (some t) now = leb t now

-- `status IN ('pending', 'created')`
abbrev pub is_open : Status → Bool
is_open s = not (is_terminal s)

unfoldable pub takeable : Option ℕ → ℕ → Row → Bool
takeable observed now r =
    is_open r.status && (not_distinct r.fencing_token observed && lapsed r.lease_expires_at now)

unfoldable pub taken : ℕ → ℕ → ℕ → ℕ → Row → Row
taken owner_id lease_seconds token now r = record r {
  owner_id = some owner_id;
  fencing_token = some token;
  attempt = r.attempt + 1;
  lease_expires_at = some (now + seconds lease_seconds);
  updated_at = now;
}

-- `fencing_token = $ AND owner_id = $ AND attempt = $`
unfoldable pub carries : Fence → Row → Bool
carries f r =
    equals r.fencing_token f.token && (equals r.owner_id f.owner_id && r.attempt == f.attempt)

unfoldable pub completed : Outcome → ℕ → Row → Row
completed o now r = record r {
  status = o.status;
  sandbox_id = or_else o.sandbox_id r.sandbox_id;
  output = o.output;
  error = o.error;
  server_state = dumps o.server_state;
  completed_at = some now;
  lease_expires_at = none;
  updated_at = now;
}

unfoldable pub execute : Statement → ℕ → Table Row → Table Row × Bool
unfolding new_row insert_at update_at takeable taken carries completed
execute (inserts c) now t = insert_at c.key (new_row c now) (t.at c.key) t
execute (takes k owner_id lease_seconds token observed) now t =
    update_at k (takeable observed now) (taken owner_id lease_seconds token now) (t.at k) t
execute (renews k f lease_seconds) now t =
    update_at k (λ r. carries f r && is_open r.status)
      (λ r. record r { lease_expires_at = some (now + seconds lease_seconds); updated_at = now })
      (t.at k) t
execute (creates k sandbox_id f) now t =
    update_at k (λ r. carries f r && is_pending r.status)
      (λ r. record r { status = created; sandbox_id = some sandbox_id; updated_at = now }) (t.at k)
      t
execute (completes k o f) now t =
    update_at k (λ r. carries f r && is_open r.status) (completed o now) (t.at k) t

-- How the driver answers a statement: normally, by an error that left the table alone, or by an error
-- after the server had committed.
pub data Fault : Type 0 where
  fine refused lost : Fault

-- The world of one operation, statement by statement: what other callers execute before it, its `now()`, how it is answered, and the
-- token that `new_fence` mints for it, if it is a takeover.
pub record World : Type 0 where
  pub others : ℕ → List (ℕ × Statement)
  pub now : ℕ → ℕ
  pub faults : ℕ → Fault
  pub mint : ℕ → ℕ

pub record Session : Type 0 where
  pub table : Table Row
  pub step : ℕ

unfoldable pub execute_all : List (ℕ × Statement) → Table Row → Table Row
unfolding execute
execute_all [] t = t
execute_all ((now, st) ∷ rest) t = execute_all rest (execute st now t).0

abbrev pub answered :
    {A : Type 0} → Fault → LedgerError → ℕ → Table Row → Table Row × A → Session × Result A
answered fine e n t (t', a) = (record { table = t'; step = suc n }, ok a)
answered refused e n t (t', a) = (record { table = t; step = suc n }, err e)
answered lost e n t (t', a) = (record { table = t'; step = suc n }, err e)

module _ (w : World) (e : LedgerError) where
  unfoldable pub issue :
      {A : Type 0} → (ℕ → Table Row → Table Row × A) → Session → Session × Result A
  unfolding execute_all
  issue q s =
      let t = execute_all (w.others s.step) s.table in
      answered (w.faults s.step) e s.step t (q (w.now s.step) t)

  unfoldable pub fetch : Key → Session → Session × Result (Option Row)
  unfolding issue
  fetch k s = issue (λ now t. (t, t.at k)) s

  unfoldable pub perform : Statement → Session → Session × Result Bool
  unfolding issue execute
  perform st s = issue (execute st) s

-- What follows a statement; its error ends the operation.
abbrev pub and_then :
    {A B : Type 0} → Session × Result A → (A → Session → Session × Result B) → Session × Result B
and_then (s, err e) f = (s, err e)
and_then (s, ok a) f = f a s

abbrev pub reply : {A : Type 0} → A → Session → Session × Result A
reply a s = (s, ok a)
