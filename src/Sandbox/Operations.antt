-- ===== src/Sandbox/Operations.antt =====
-- The operations of `PostgresSandboxInvocationLedger` (map_core/map_core/service/sandbox_ledger.py), as the code composes them of statements.
use map.Base.{
  ℕ, zero, suc, ◌+◌, String, Bool, true, false, ◌&&◌, not, Option, none, some, List, [], ◌∷◌,
  str_eq, if◌then◌else◌, take,
}
use map.Sandbox.{
  is_terminal, Key, Fence, Record, ClaimOutcome, owned, takeover, replay, conflict, in_progress,
  gone, LedgerError, ledger_error, ownership_lost, Result, ok, err, ClaimArgs, TakeoverArgs,
  Outcome, Table, values_of, select, sort_by,
}
use map.Sandbox.Memory.{new_fence, takeover_of}
use map.Sandbox.Postgres.{
  Row, record_from_row, inserts, takes, renews, creates, completes, World, Session, lapsed, is_open,
  issue, fetch, perform, and_then, reply,
}

abbrev pub failed : String → LedgerError
failed = ledger_error

module _ (w : World) (e : LedgerError) (a : TakeoverArgs) where
  -- The SELECT of `_takeover_loop`, with its column `lease_expired`.
  unfoldable pub observed_row : ℕ → Option Row → Option (Row × Bool)
  observed_row now none = none
  observed_row now (some r) = some (r, lapsed r.lease_expires_at now)

  unfoldable pub observe : Session → Session × Result (Option (Row × Bool))
  unfolding issue observed_row
  observe s = issue w e (λ now t. (t, observed_row now (t.at a.key))) s

  unfoldable pub taken_outcome : Fence → Option Row → Option ClaimOutcome
  unfolding record_from_row
  taken_outcome f none = none
  taken_outcome f (some r) = some (takeover (record_from_row r) f)

  unfoldable pub after_update : Fence → Bool → Session → Session × Result (Option ClaimOutcome)
  unfolding fetch taken_outcome
  after_update f true s = and_then (fetch w e a.key s) (λ o t. reply (taken_outcome f o) t)
  after_update f false s = reply none s

  -- The compare-and-set on the observed generation, and the read of the row that it wrote.
  unfoldable pub try_take : Row → Session → Session × Result (Option ClaimOutcome)
  unfolding perform after_update
  try_take r s =
      let token = w.mint s.step in
      and_then (perform w e (takes a.key a.owner_id a.lease_seconds token r.fencing_token) s)
        (after_update (new_fence token a.owner_id (r.attempt + 1)))

  unfoldable pub classify : Option (Row × Bool) → Session → Session × Result (Option ClaimOutcome)
  unfolding record_from_row try_take
  classify none s = reply (some gone) s
  classify (some (r, expired)) s =
      if is_terminal r.status
      then reply (some (replay (record_from_row r))) s
      else if not expired
      then reply (some (in_progress (record_from_row r))) s
      else try_take r s

  -- One round of `_takeover_loop`; `none` when the row moved.
  unfoldable pub takeover_round : Session → Session × Result (Option ClaimOutcome)
  unfolding observe classify
  takeover_round s = and_then (observe s) classify

  unfoldable pub after_round :
      (Session → Session × Result ClaimOutcome)
      → Session × Result (Option ClaimOutcome)
      → Session × Result ClaimOutcome
  after_round continue (s, err x) = (s, err x)
  after_round continue (s, ok none) = continue s
  after_round continue (s, ok (some o)) = (s, ok o)

  unfoldable pub takeover_loop : ℕ → Session → Session × Result ClaimOutcome
  unfolding takeover_round after_round
  takeover_loop zero s =
      (s, err (ledger_error "takeover: row kept moving under concurrent callers"))
  takeover_loop (suc n) s = after_round (λ t. takeover_loop n t) (takeover_round s)

-- `_TAKEOVER_ATTEMPTS`
abbrev pub takeover_attempts : ℕ
takeover_attempts = 5

module _ (w : World) where
  unfoldable pub take_over : TakeoverArgs → Session → Session × Result ClaimOutcome
  unfolding takeover_loop
  take_over a s = takeover_loop w (failed "takeover failed") a takeover_attempts s

  unfoldable pub claim_found :
      ClaimArgs → Bool → Option Row → Session → Session × Result ClaimOutcome
  unfolding record_from_row takeover_loop
  claim_found c inserted none s = (s, err (ledger_error "claim: row disappeared"))
  claim_found c inserted (some r) s =
      if inserted
      then reply (owned (record_from_row r) (new_fence c.token c.owner_id 0)) s
      else if not (str_eq r.request_digest c.request_digest)
      then reply (conflict (record_from_row r)) s
      else if is_terminal r.status
      then reply (replay (record_from_row r)) s
      else takeover_loop w (failed "claim failed") (takeover_of c) takeover_attempts s

  unfoldable pub claim : ClaimArgs → Session → Session × Result ClaimOutcome
  unfolding perform fetch claim_found
  claim c s =
      and_then (perform w (failed "claim failed") (inserts c) s)
        (λ inserted t. and_then (fetch w (failed "claim failed") c.key t) (claim_found c inserted))

  unfoldable pub record_option : Option Row → Option Record
  unfolding record_from_row
  record_option none = none
  record_option (some r) = some (record_from_row r)

  unfoldable pub get : Key → Session → Session × Result (Option Record)
  unfolding fetch record_option
  get k s = and_then (fetch w (failed "get failed") k s) (λ o t. reply (record_option o) t)

  unfoldable pub renew : Key → Fence → ℕ → Session → Session × Result Bool
  unfolding perform
  renew k f lease_seconds s = perform w (failed "renew failed") (renews k f lease_seconds) s

  -- `if result == "UPDATE 0": raise SandboxOwnershipLost`
  unfoldable pub require_update : Bool → Session → Session × Result (Unit {0})
  require_update true s = reply tt s
  require_update false s = (s, err ownership_lost)

  unfoldable pub record_created : Key → String → Fence → Session → Session × Result (Unit {0})
  unfolding perform require_update
  record_created k sandbox_id f s =
      and_then (perform w (failed "record_created failed") (creates k sandbox_id f) s)
        require_update

  unfoldable pub complete : Key → Outcome → Fence → Session → Session × Result (Unit {0})
  unfolding perform require_update
  complete k o f s =
      let done =
        and_then (perform w (failed "complete failed") (completes k o f) s) require_update in
      if is_terminal o.status
      then done
      else (s, err (ledger_error "complete: not a terminal status"))

  unfoldable pub records_of : List Row → List Record
  unfolding record_from_row
  records_of [] = []
  records_of (r ∷ rs) = record_from_row r ∷ records_of rs

  -- `ORDER BY updated_at ASC LIMIT`. The order of ties, which SQL leaves open, is that of the table.
  unfoldable pub expired_rows : ℕ → ℕ → Table Row → List Row
  unfolding values_of select sort_by
  expired_rows limit now t = take limit (
      sort_by (λ r. r.updated_at)
        (select (λ r. is_open r.status && lapsed r.lease_expires_at now) (values_of t.at t.order)))

  unfoldable pub list_expired : ℕ → Session → Session × Result (List Record)
  unfolding issue expired_rows records_of
  list_expired limit s =
      and_then (issue w (failed "list_expired failed") (λ now t. (t, expired_rows limit now t)) s)
        (λ rows t. reply (records_of rows) t)
