-- ===== src/Sandbox/Ownership.antt =====
-- Who owns a row of the ledger in the database (map_core/map_core/service/sandbox_ledger.py), whatever statements other callers execute.
use map.Base.{
  ℕ, ◌≤◌, ◌<◌, String, Bool, true, false, some, List, [], ◌∷◌, ◌≡◌, ◌≢◌, refl, sym, ◌∙◌, subst,
  arith, All,
}
use map.Sandbox.{
  Status, pending, created, succeeded, failed, unknown, is_terminal, Key, Fence, Outcome, Table,
  Result, ok, LedgerError,
}
use map.Sandbox.Memory.{is_pending}
use map.Sandbox.Postgres
use map.Sandbox.Operations
use map.Sandbox.Postgres.{
  Row, Statement, inserts, takes, renews, creates, completes, execute, execute_all, carries,
  takeable, taken, completed, is_open, update_at, insert_at, new_row, lapsed, World, Session, Fault,
  fine, refused, lost,
}
use map.Sandbox.History.{RowOf, RowStep, same, took, renewed, made, done, execute-RowStep}

abbrev rank : Status → ℕ
rank pending = 0
rank created = 1
rank _ = 2

-- A later row beside an earlier one.
pub record After (r r' : Row) : Type 0 where
  pub attempt_grows : r.attempt ≤ r'.attempt
  pub rank_grows : rank r.status ≤ rank r'.status
  pub terminal_stays : is_terminal r.status ≡ true → r' ≡ r
  pub request_stays :
      (r'.request_digest ≡ r.request_digest)
      × (r'.create_key ≡ r.create_key)
      × (r'.execute_key ≡ r.execute_key)
      × (r'.request_payload ≡ r.request_payload)
  pub generation_stays :
      r'.attempt ≡ r.attempt → (r'.fencing_token ≡ r.fencing_token) × (r'.owner_id ≡ r.owner_id)

After-refl : (r : Row) → After r r
After-refl r = record {
  attempt_grows = omega arith;
  rank_grows = omega arith;
  terminal_stays = λ _. refl;
  request_stays = (refl, refl, refl, refl);
  generation_stays = λ _. (refl, refl);
}

open_rank : (s : Status) → is_terminal s ≡ false → rank s ≤ 1
open_rank pending h = omega arith
open_rank created h = omega arith
open_rank succeeded h = cc
open_rank failed h = cc
open_rank unknown h = cc

rank_le : (s : Status) → rank s ≤ 2
rank_le pending = omega arith
rank_le created = omega arith
rank_le succeeded = omega arith
rank_le failed = omega arith
rank_le unknown = omega arith

-- `complete` issues its statement for a terminal status only.
abbrev pub Issued : Statement → Type 0
Issued (completes k o f) = is_terminal o.status ≡ true
Issued _ = Unit

terminal_rank : (s : Status) → is_terminal s ≡ true → rank s ≡ 2
terminal_rank pending h = cc
terminal_rank created h = cc
terminal_rank succeeded h = refl
terminal_rank failed h = refl
terminal_rank unknown h = refl

pending_rank : (s : Status) → is_pending s ≡ true → (rank s ≡ 0) × (is_terminal s ≡ false)
pending_rank pending h = (refl, refl)
pending_rank created h = cc
pending_rank succeeded h = cc
pending_rank failed h = cc
pending_rank unknown h = cc

RowStep-After :
    {now : ℕ} {r r' : Row} {st : Statement} → Issued st → RowStep now r st r' → After r r'
unfolding takeable taken completed
RowStep-After {r = r} issued same = After-refl r
RowStep-After {r = r} issued (took h) = record {
  attempt_grows = omega arith;
  rank_grows = omega arith;
  terminal_stays = λ g. absurd (ground arith);
  request_stays = (refl, refl, refl, refl);
  generation_stays = λ e. absurd (omega arith);
}
RowStep-After issued (renewed a b) = record {
  attempt_grows = omega arith;
  rank_grows = omega arith;
  terminal_stays = λ h. absurd (ground arith);
  request_stays = (refl, refl, refl, refl);
  generation_stays = λ _. (refl, refl);
}
RowStep-After {r = r} issued (made a b) =
    let (low, live) = pending_rank r.status b in
    record {
      attempt_grows = omega arith;
      rank_grows = omega arith;
      terminal_stays = λ h. cc;
      request_stays = (refl, refl, refl, refl);
      generation_stays = λ _. (refl, refl);
    }
RowStep-After {r = r} issued (done {o = o} a b) =
    let top = terminal_rank o.status issued in
    let low = rank_le r.status in
    record {
      attempt_grows = omega arith;
      rank_grows = omega arith;
      terminal_stays = λ h. absurd (ground arith);
      request_stays = (refl, refl, refl, refl);
      generation_stays = λ _. (refl, refl);
    }

After-trans : {r x y : Row} → After r x → After x y → After r y
After-trans {r = r} {x = x} {y = y} a b = record {
  attempt_grows = omega arith;
  rank_grows = omega arith;
  terminal_stays = λ h. let e = a.terminal_stays h in b.terminal_stays (rw e h) ∙ e;
  request_stays = (cc, cc, cc, cc);
  generation_stays = λ e.
      let p : x.attempt ≡ r.attempt = omega arith in
      let q : y.attempt ≡ x.attempt = omega arith in
      let (t, o) = a.generation_stays p in let (t', o') = b.generation_stays q in (t' ∙ t, o' ∙ o);
}

-- After any statements, by any callers and for any keys (`complete` only with a terminal status, as the code
-- issues it), a row is still there; its attempt has not fallen, its status has not gone back and is final once
-- terminal, its request and idempotency keys are as they were, and its owner and token change only with the
-- attempt.
pub execute_all-After :
    (es : List (ℕ × Statement)) (t : Table Row) (k : Key) (r : Row)
    → All (λ e. Issued e.1) es
    → t.at k ≡ some r
    → RowOf (After r) k (execute_all es t)
unfolding execute_all
execute_all-After [] t k r issued h = (r, h, After-refl r)
execute_all-After ((now, st) ∷ es) t k r issued h =
    let (x, h', s) = execute-RowStep st now k r t h in
    let (y, h'', a) = execute_all-After es (execute st now t).0 k x issued.1 h' in
    (y, h'', After-trans (RowStep-After issued.0 s) a)

older : (f : Fence) (r : Row) → f.attempt < r.attempt → carries f r ≡ false
unfolding carries
older f r h = ground arith

-- The operation did what the others did, and did not answer `good`.
abbrev pub Refused : {A : Type 0} → World → Session → A → Session × Result A → Type 0
Refused w s good (s', a) = (s'.table ≡ execute_all (w.others s.step) s.table) × (a ≢ ok good)

told_no :
    (fault : Fault) (e : LedgerError) (n : ℕ) (t : Table Row)
    → (let (s', a) = Postgres.answered fault e n t (t, false) in (s'.table ≡ t) × (a ≢ ok true))
told_no fine e n t = (refl, λ h. cc)
told_no refused e n t = (refl, λ h. cc)
told_no lost e n t = (refl, λ h. cc)

told_lost :
    (w : World) (fault : Fault) (e : LedgerError) (n : ℕ) (t : Table Row)
    → (let (s', a) =
          Postgres.and_then
            (Postgres.answered fault e n t (t, false))
            (Operations.require_update w) in
        (s'.table ≡ t) × (a ≢ ok tt))
unfolding Operations.require_update
told_lost w fine e n t = (refl, λ h. cc)
told_lost w refused e n t = (refl, λ h. cc)
told_lost w lost e n t = (refl, λ h. cc)

refused_at :
    (k : Key) (t : Table Row) (p : Row → Bool) (f : Row → Row) (r : Row)
    → t.at k ≡ some r
    → p r ≡ false
    → update_at k p f (t.at k) t ≡ (t, false)
unfolding update_at
refused_at k t p f r h q = rw h (rw q refl)

-- A caller whose fence is of an earlier attempt than the row's can do nothing to it, whatever other callers
-- execute meanwhile (`complete` only with a terminal status, as the code issues it) and whatever the driver
-- answers: `renew`, `record_created` and, for a terminal status, `complete` leave the table as the others did
-- and do not report success.
pub superseded_fence-Refused :
    (w : World) (s : Session) (k : Key) (r : Row) (f : Fence)
    → s.table.at k ≡ some r
    → f.attempt < r.attempt
    → All (λ e. Issued e.1) (w.others s.step)
    → (sandbox_id : String) (lease_seconds : ℕ) (o : Outcome) → is_terminal o.status ≡ true
    → Refused w s true (Operations.renew w k f lease_seconds s)
      × Refused w s tt (Operations.record_created w k sandbox_id f s)
      × Refused w s tt (Operations.complete w k o f s)
unfolding Operations.renew Operations.record_created Operations.complete
superseded_fence-Refused w s k r f here old issued sandbox_id lease_seconds o final =
    let t : Table Row = execute_all (w.others s.step) s.table in
    let (x, h, a) = execute_all-After (w.others s.step) s.table k r issued here in
    let stale : carries f x ≡ false = older f x (let g = a.attempt_grows in omega arith) in
    let fault = w.faults s.step in
    (
      subst
          (λ u.
            let (s', a) = Postgres.answered fault (Operations.failed "renew failed") s.step t u in
            (s'.table ≡ t) × (a ≢ ok true))
          (sym (refused_at k t _ _ x h (rw stale refl))) (told_no fault _ s.step t),
      subst
          (λ u.
            let (s', a) =
              Postgres.and_then
                (Postgres.answered fault (Operations.failed "record_created failed") s.step t u)
                (Operations.require_update w) in
            (s'.table ≡ t) × (a ≢ ok tt))
          (sym (refused_at k t _ _ x h (rw stale refl))) (told_lost w fault _ s.step t),
      rw final (
          subst
            (λ u.
              let (s', a) =
                Postgres.and_then
                  (Postgres.answered fault (Operations.failed "complete failed") s.step t u)
                  (Operations.require_update w) in
              (s'.table ≡ t) × (a ≢ ok tt))
            (sym (refused_at k t _ _ x h (rw stale refl))) (told_lost w fault _ s.step t)),
    )
