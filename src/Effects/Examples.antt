-- ===== src/Effects/Examples.antt =====
-- The theorems on the effect ledger of job_runner.py at concrete ledgers, and runs of the protocol.
use map.Base.{inr, true, false, ◌≡◌, refl, none, some, List, [], ◌∷◌, arith}
use map.Effects.{
  delivered, uncertain, Row, pending, Fence, Slot, Ledger, begin_dispatch, ack_effect,
  record_intent, execute,
}
use map.Effects.World.{Sys, Caller, acknowledged, runs, passes}
use map.Effects.Guard.{raised, terminal_state, budget, run_protocol, returned_delivered, Verdict}
use map.Effects.Rows.{Timed, run, After, run-After}
use map.Effects.History.{superseded_fence, grant_exclusive, acks, SameRows}
use map.Effects.Returns.{run_protocol_returns}
use map.Effects.Fresh.{acknowledged_delivers}
use map.Effects.Decisions.{StatusAt}
use map.Effects.Terminal.{Untouched, terminal_never_sent}
use map.Effects.Delivery.{run_protocol-Means, VerdictMeans}

abbrev slot1 : Slot
slot1 = record { workspace_id = 1; effect_key = "email:7" }

abbrev intended : Row
intended = record {
  job_id = some 3;
  status = pending;
  attempts = 0;
  last_outcome = none;
  dispatch_token = none;
  dispatch_owner = none;
  dispatch_attempt = none;
  dispatch_expires_at = none;
}

abbrev ledger : Ledger
ledger = record { rows = λ s. some intended; minted = 5 }

abbrev stale : Fence
stale = record { token = 2; owner = 4; attempt = 1 }

abbrev history : List Timed
history =
    record { statement = begin_dispatch 9 1 60; slot = slot1; now = 20 }
    ∷ record { statement = ack_effect stale; slot = slot1; now = 30 }
    ∷ []

run-After_example : (r' : Row) × ((run history ledger).rows slot1 ≡ some r') × After intended r'
run-After_example = run-After history ledger slot1 intended refl

granted_here : (execute (begin_dispatch 8 1 60) slot1 10 ledger).1 ≡ true
unfolding execute
granted_here = refl

superseded_fence_example :
    let l' = run history (execute (begin_dispatch 8 1 60) slot1 10 ledger).0 in
    ((execute (ack_effect stale) slot1 40 l').1 ≡ false)
    × SameRows l' (execute (ack_effect stale) slot1 40 l').0
superseded_fence_example =
    superseded_fence (begin_dispatch 8 1 60) slot1 10 ledger stale refl granted_here (omega arith)
      history (ack_effect stale) 40 acks

grant_exclusive_example :
    (execute
      (begin_dispatch 9 1 60)
      slot1
      69
      (run history (execute (begin_dispatch 8 1 60) slot1 10 ledger).0)).1
    ≡ false
grant_exclusive_example =
    grant_exclusive (begin_dispatch 8 1 60) slot1 10 ledger refl granted_here history
      (omega arith, (omega arith, tt)) (begin_dispatch 9 1 60) 69 refl (omega arith)

-- The provider acknowledges, while another caller records the same intent.
abbrev caller : Caller
caller = record { slot = slot1; owner = 8; attempt = 1; lease = 60_000_000 }

abbrev sys : Sys
sys = record {
  ledger = record { rows = λ s. none; minted = 0 };
  db_now = 100;
  loop_now = 100;
  others = (runs (record_intent none) slot1 ∷ passes 10 ∷ []) ∷ [];
  queries = [];
  sends = acknowledged ∷ [];
  sent = 0;
}

abbrev final : Sys
unfolding run_protocol
final = elim (run_protocol 3 caller (some 3) sys) [ none ↦ sys | some (v, t) ↦ t ]

acknowledged_run : run_protocol 3 caller (some 3) sys ≡ some (returned_delivered, final)
unfolding run_protocol
acknowledged_run = refl

run_protocol-Means_example : VerdictMeans slot1 returned_delivered final
run_protocol-Means_example = run_protocol-Means 3 caller (some 3) sys acknowledged_run

run_protocol_returns_example :
    (v : Verdict) × (t : Sys) × (run_protocol 180_000_003 caller (some 3) sys ≡ some (v, t))
run_protocol_returns_example =
    run_protocol_returns caller (some 3) sys 180_000_002 (unfold budget in omega arith)

-- The effect is uncertain; the provider is not asked, though it would acknowledge.
abbrev lost_row : Row
lost_row = record intended { status = uncertain; attempts = 1; dispatch_token = some 1 }

abbrev stuck : Sys
stuck = record sys { ledger = record { rows = λ s. some lost_row; minted = 2 } }

terminal_never_sent_example :
    (t : Sys) × (run_protocol 1 caller (some 3) stuck ≡ some (raised terminal_state, t))
    × Untouched slot1 lost_row stuck t
terminal_never_sent_example = terminal_never_sent caller lost_row (inr refl) (some 3) 0 stuck refl

abbrev calm : Sys
calm = record sys { others = [] }

acknowledged_delivers_example :
    (t : Sys) × (run_protocol 1 caller (some 3) calm ≡ some (returned_delivered, t))
    × (t.sent ≡ 1)
    × StatusAt delivered slot1 t
acknowledged_delivers_example = acknowledged_delivers caller (some 3) 0 calm [] refl tt refl
