-- ===== src/StateMachine/Examples.antt =====
-- The theorems on state_machine.py at concrete machines and states, and runs of its guard.
use map.Base.{String, true, ◌≡◌, refl, ◌↔◌, ◌≢◌}
use map.StateMachine.{
  is_valid_state, is_terminal, can_transition, valid, validate_transition,
  state_transition_violation, canonical_states, terminal_states, transitions,
}
use map.StateMachine.Edges.{edge, validate_transition_iff}
use map.StateMachine.Paths.{is_terminal_iff, CanEnd, valid_CanEnd}

pause_allowed : can_transition "run" "running" "paused" ≡ true
unfolding can_transition transitions
pause_allowed = refl

late_done_refused :
    validate_transition "run" "cancelled" "completed"
    ≡ state_transition_violation (edge "run" "cancelled" "completed")
unfolding validate_transition canonical_states terminal_states transitions
late_done_refused = refl

validate_transition_iff_example :
    (validate_transition "run" "running" "paused" ≡ valid)
    ↔ (can_transition "run" "running" "paused" ≡ true)
validate_transition_iff_example = validate_transition_iff "run" "running" "paused"

is_terminal_iff_example :
    (is_terminal "run" "failed" ≡ true)
    ↔ ((t : String) → validate_transition "run" "failed" t ≢ valid)
is_terminal_iff_example =
    is_terminal_iff "run" "failed" (unfold is_valid_state canonical_states in refl)

valid_CanEnd_example : CanEnd "effect" "uncertain"
valid_CanEnd_example =
    valid_CanEnd "effect" "uncertain" (unfold is_valid_state canonical_states in refl)
