-- ===== src/Sandbox/Examples.antt =====
-- The theorems on sandbox_ledger.py at concrete tables, and runs of its operations.
use map.Base.{ℕ, true, false, ◌≡◌, refl, none, some, List, [], ◌∷◌, arith}
use map.Sandbox.{Key, Fence, succeeded, ClaimArgs, TakeoverArgs, Outcome, Table}
use map.Sandbox.Memory
use map.Sandbox.Operations
use map.Sandbox.Postgres.{
  Row, World, Statement, inserts, takes, renews, completes, execute, execute_all, new_row,
}
use map.Sandbox.Refinement.{quiet, start, view, seen, answer, complete-refines}
use map.Sandbox.Takeover.{take_over-refines, claim-refines}
use map.Sandbox.History.{RowOf}
use map.Sandbox.Ownership.{After, Refused, execute_all-After, superseded_fence-Refused}
use map.Sandbox.Leases.{by_claim, by_takeover, lease_exclusive}

abbrev key1 : Key
key1 = record { workspace_id = "w1"; invocation_id = "i1" }

abbrev claim1 : ClaimArgs
claim1 = record {
  key = key1;
  request_digest = "d1";
  create_key = "create:w1:i1:d1";
  execute_key = "execute:w1:i1:d1";
  request_payload = "{}";
  owner_id = 7;
  lease_seconds = 60;
  token = 1;
  takeover_token = 2;
  now = 10;
}

abbrev empty : Table Row
empty = record { order = []; at = λ k. none }

-- The row of a claim at time 10, and the row after a takeover.
abbrev first : Row
first = new_row claim1 10

abbrev second : Row
second = record first {
  owner_id = some 8;
  fencing_token = some 2;
  attempt = 1;
  lease_expires_at = some 120_000_010;
}

abbrev holding : Row → Table Row
holding r = record { order = key1 ∷ []; at = λ k. some r }

abbrev fence1 : Fence
fence1 = record { token = 1; owner_id = 7; attempt = 0 }

abbrev outcome : Outcome
outcome = record {
  status = succeeded;
  sandbox_id = none;
  output = some "out";
  error = none;
  server_state = some "{}";
}

abbrev later : TakeoverArgs
later = record { key = key1; owner_id = 8; lease_seconds = 60; token = 2; now = 60_000_010 }

claim-refines_example :
    seen (Operations.claim (quiet 10 2) claim1 (start empty))
    ≡ answer (Memory.claim claim1 (view empty))
claim-refines_example = claim-refines claim1 empty

take_over-refines_example :
    (Operations.take_over (quiet 60_000_010 2) later (start (holding first))
      ≡ Operations.takeover_loop
          (quiet 60_000_010 2)
          (Operations.failed "takeover failed")
          later
          1
          (start (holding first)))
    × (seen (Operations.take_over (quiet 60_000_010 2) later (start (holding first)))
        ≡ answer (Memory.take_over later (view (holding first))))
take_over-refines_example = take_over-refines later (holding first)

complete-refines_example :
    seen (Operations.complete (quiet 20 2) key1 outcome fence1 (start (holding first)))
    ≡ Memory.complete key1 outcome fence1 20 (view (holding first))
complete-refines_example = complete-refines key1 outcome fence1 20 2 (holding first)

abbrev history : List (ℕ × Statement)
history =
    (20, renews key1 (record { token = 9; owner_id = 7; attempt = 0 }) 60)
    ∷ (30, completes key1 outcome fence1)
    ∷ []

execute_all-After_example : RowOf (After first) key1 (execute_all history (holding first))
execute_all-After_example =
    execute_all-After history (holding first) key1 first (tt, (refl, tt)) refl

-- While the superseded owner returns, the new owner completes.
abbrev busy : World
busy = record (quiet 80_000_000 3) {
  others = λ n.
      (70_000_000, completes key1 outcome (record { token = 2; owner_id = 8; attempt = 1 })) ∷ [];
}

superseded_fence-Refused_example :
    Refused busy
      (start (holding second))
      true
      (Operations.renew busy key1 fence1 60 (start (holding second)))
    × Refused busy
        (start (holding second))
        tt
        (Operations.record_created busy key1 "sb" fence1 (start (holding second)))
    × Refused busy
        (start (holding second))
        tt
        (Operations.complete busy key1 outcome fence1 (start (holding second)))
superseded_fence-Refused_example =
    superseded_fence-Refused busy (start (holding second)) key1 second fence1 refl (omega arith)
      (refl, tt) "sb" 60 outcome refl

inserted : (execute (inserts claim1) 10 empty).1 ≡ true
unfolding execute
inserted = refl

abbrev rival : Statement
rival = takes key1 9 60 3 (some 1)

lease_exclusive_example :
    (execute rival 60_000_000 (execute_all history (execute (inserts claim1) 10 empty).0)).1 ≡ false
lease_exclusive_example =
    lease_exclusive (inserts claim1) key1 1 60 10 empty (by_claim claim1) inserted history
      ((omega arith, tt, λ h. omega arith), ((omega arith, refl, tt), tt)) rival 3 60 60_000_000
      (by_takeover key1 9 60 3 (some 1)) (omega arith)
