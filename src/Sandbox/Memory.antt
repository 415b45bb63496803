-- ===== src/Sandbox/Memory.antt =====
-- `InMemorySandboxInvocationLedger` of map_core/map_core/service/sandbox_ledger.py. Its methods never await, so
-- each is one step, which reads the clock once.
use map.Base.{
  ℕ, ◌+◌, ◌*◌, String, Bool, true, false, ◌&&◌, ◌||◌, not, Option, none, some, List, [], leb, ◌==◌,
  if◌then◌else◌, take,
}
use map.Sandbox.{
  Status, pending, created, is_terminal, Key, Fence, Record, ClaimOutcome, owned, takeover, replay,
  conflict, in_progress, gone, ledger_error, ownership_lost, Result, ok, err, ClaimArgs,
  TakeoverArgs, Outcome, equals, or_else, Table, put, values_of, select, sort_by,
}
use map.Base.{str_eq}

pub record Ledger : Type 0 where
  pub rows : Table Record
  pub fail_complete_next : Bool
  pub fail_record_created_next : Bool

-- `timedelta` and `make_interval`
abbrev pub seconds : ℕ → ℕ
seconds n = n * 1_000_000

-- `_expired`
unfoldable pub expired : ℕ → Record → Bool
expired now r = leb r.lease_expires_at 0 || leb r.lease_expires_at now

-- `new_fence`
abbrev pub new_fence : ℕ → ℕ → ℕ → Fence
new_fence token owner_id attempt = record { token = token; owner_id = owner_id; attempt = attempt }

-- `self._rows[key] = row`
abbrev pub set_row : Key → Record → Ledger → Ledger
set_row k r l = record l { rows = put k r l.rows }

unfoldable pub new_record : ClaimArgs → Record
new_record c = record {
  key = c.key;
  request_digest = c.request_digest;
  create_key = c.create_key;
  execute_key = c.execute_key;
  status = pending;
  sandbox_id = none;
  output = none;
  error = none;
  server_state = none;
  request_payload = some c.request_payload;
  owner_id = some c.owner_id;
  lease_expires_at = c.now + seconds c.lease_seconds;
  fencing_token = some c.token;
  attempt = 0;
  created_at = c.now;
  completed_at = 0;
  updated_at = c.now;
}

unfoldable pub taken : TakeoverArgs → Record → Record
taken a r = record r {
  owner_id = some a.owner_id;
  lease_expires_at = a.now + seconds a.lease_seconds;
  fencing_token = some a.token;
  attempt = r.attempt + 1;
  updated_at = a.now;
}

unfoldable pub takeover_row : TakeoverArgs → Option Record → Ledger → Ledger × ClaimOutcome
unfolding expired taken
takeover_row a none l = (l, gone)
takeover_row a (some r) l =
    if is_terminal r.status
    then (l, replay r)
    else if not (expired a.now r)
    then (l, in_progress r)
    else (
      set_row a.key (taken a r) l,
      takeover (taken a r) (new_fence a.token a.owner_id (r.attempt + 1)),
    )

unfoldable pub take_over : TakeoverArgs → Ledger → Ledger × ClaimOutcome
unfolding takeover_row
take_over a l = takeover_row a (l.rows.at a.key) l

abbrev pub takeover_of : ClaimArgs → TakeoverArgs
takeover_of c = record {
  key = c.key;
  owner_id = c.owner_id;
  lease_seconds = c.lease_seconds;
  token = c.takeover_token;
  now = c.now;
}

unfoldable pub claim_row : ClaimArgs → Option Record → Ledger → Ledger × ClaimOutcome
unfolding new_record expired take_over
claim_row c none l =
    (set_row c.key (new_record c) l, owned (new_record c) (new_fence c.token c.owner_id 0))
claim_row c (some r) l =
    if not (str_eq r.request_digest c.request_digest)
    then (l, conflict r)
    else if is_terminal r.status
    then (l, replay r)
    else if not (expired c.now r)
    then (l, in_progress r)
    else take_over (takeover_of c) l

unfoldable pub claim : ClaimArgs → Ledger → Ledger × ClaimOutcome
unfolding claim_row
claim c l = claim_row c (l.rows.at c.key) l

unfoldable pub get : Key → Ledger → Option Record
get k l = l.rows.at k

-- The generation that a write is bound to.
unfoldable pub carries : Fence → Record → Bool
carries f r =
    equals r.fencing_token f.token && (equals r.owner_id f.owner_id && r.attempt == f.attempt)

unfoldable pub renew_row : Key → Fence → ℕ → ℕ → Option Record → Ledger → Ledger × Bool
unfolding carries
renew_row k f lease_seconds now none l = (l, false)
renew_row k f lease_seconds now (some r) l =
    if is_terminal r.status
    then (l, false)
    else if carries f r
    then (
      set_row k (record r { lease_expires_at = now + seconds lease_seconds; updated_at = now }) l,
      true,
    )
    else (l, false)

unfoldable pub renew : Key → Fence → ℕ → ℕ → Ledger → Ledger × Bool
unfolding renew_row
renew k f lease_seconds now l = renew_row k f lease_seconds now (l.rows.at k) l

abbrev pub is_pending : Status → Bool
is_pending pending = true
is_pending _ = false

unfoldable pub created_row :
    Key → String → Fence → ℕ → Option Record → Ledger → Ledger × Result (Unit {0})
unfolding carries
created_row k sandbox_id f now none l = (l, err ownership_lost)
created_row k sandbox_id f now (some r) l =
    if is_pending r.status && carries f r
    then (if l.fail_record_created_next
        then (
          record l { fail_record_created_next = false },
          err (ledger_error "record_created: simulated ledger failure"),
        )
        else (
          set_row k (record r { status = created; sandbox_id = some sandbox_id; updated_at = now })
              l,
          ok tt,
        ))
    else (l, err ownership_lost)

unfoldable pub record_created : Key → String → Fence → ℕ → Ledger → Ledger × Result (Unit {0})
unfolding created_row
record_created k sandbox_id f now l = created_row k sandbox_id f now (l.rows.at k) l

unfoldable pub completed : Outcome → ℕ → Record → Record
completed o now r = record r {
  status = o.status;
  sandbox_id = or_else o.sandbox_id r.sandbox_id;
  output = o.output;
  error = o.error;
  server_state = o.server_state;
  completed_at = now;
  lease_expires_at = 0;
  updated_at = now;
}

unfoldable pub complete_row :
    Key → Outcome → Fence → ℕ → Option Record → Ledger → Ledger × Result (Unit {0})
unfolding carries completed
complete_row k o f now none l = (l, err ownership_lost)
complete_row k o f now (some r) l =
    if not (is_terminal r.status) && carries f r
    then (if l.fail_complete_next
        then (
          record l { fail_complete_next = false },
          err (ledger_error "complete: simulated ledger failure"),
        )
        else (set_row k (completed o now r) l, ok tt))
    else (l, err ownership_lost)

unfoldable pub complete : Key → Outcome → Fence → ℕ → Ledger → Ledger × Result (Unit {0})
unfolding complete_row
complete k o f now l =
    if is_terminal o.status
    then complete_row k o f now (l.rows.at k) l
    else (l, err (ledger_error "complete: not a terminal status"))

-- `list_expired`: Python's sort is stable.
unfoldable pub list_expired : ℕ → ℕ → Ledger → List Record
unfolding expired values_of select sort_by
list_expired limit now l = take limit (
    sort_by (λ r. r.updated_at)
      (select (λ r. not (is_terminal r.status) && expired now r)
        (values_of l.rows.at l.rows.order)))

-- `clear`
unfoldable pub clear : Ledger → Ledger
clear l = record l { rows = record { order = []; at = λ k. none } }
