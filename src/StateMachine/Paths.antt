-- ===== src/StateMachine/Paths.antt =====
-- Histories of guarded transitions of state_machine.py.
use mathlib.Core.Bool.{false≢true}
use map.Base.{sym, ◌∙◌, ◌≢◌, ◌↔◌, String, ◌≡◌, refl, true, [], All}
use map.StateMachine.{
  is_valid_state, is_terminal, valid, validate_transition, canonical_states, terminal_states,
  transitions, effect_states, step_states, model_invocation_states, evidence_states, run_states,
}
use map.StateMachine.Edges.{contains_All, get_All, can_transition-inside, validate_transition_iff}

-- The states that a machine can go through when each step is validated first.
pub data PathOf (m : String) : String → String → Type 0 where
  here : {s : String} → PathOf m s s
  next : {s t u : String} → validate_transition m s t ≡ valid → PathOf m t u → PathOf m s u

-- Every state on a validated history is canonical.
pub PathOf-valid :
    {m s t : String} → PathOf m s t → is_valid_state m s ≡ true → is_valid_state m t ≡ true
PathOf-valid here h = h
PathOf-valid {m} (next {s = s} {t = t} step rest) h =
    PathOf-valid rest (can_transition-inside m s t ((validate_transition_iff m s t).0 step)).2

abbrev pub CanEnd : String → String → Type 0
CanEnd m s = (t : String) × PathOf m s t × (is_terminal m t ≡ true)

step_to : {m s : String} (t : String) → validate_transition m s t ≡ valid → CanEnd m t → CanEnd m s
step_to t h (u, p, e) = (u, next h p, e)

stop : {m s : String} → is_terminal m s ≡ true → CanEnd m s
stop {s} h = (s, here, h)

run-CanEnd : All (CanEnd "run") run_states
unfolding validate_transition canonical_states terminal_states transitions
run-CanEnd = (
  step_to "running" refl (step_to "completed" refl (stop refl)),
  (
    step_to "completed" refl (stop refl),
    (
      step_to "running" refl (step_to "completed" refl (stop refl)),
      (
        stop refl,
        (stop refl, (step_to "cancelled" refl (stop refl), (stop refl, (stop refl, tt)))),
      ),
    ),
  ),
)

step-CanEnd : All (CanEnd "step") step_states
unfolding validate_transition canonical_states terminal_states transitions
step-CanEnd = (
  step_to "ready" refl (step_to "running" refl (step_to "succeeded" refl (stop refl))),
  (
    step_to "running" refl (step_to "succeeded" refl (stop refl)),
    (
      step_to "succeeded" refl (stop refl),
      (
        step_to "running" refl (step_to "succeeded" refl (stop refl)),
        (stop refl, (stop refl, (stop refl, (stop refl, tt)))),
      ),
    ),
  ),
)

effect-CanEnd : All (CanEnd "effect") effect_states
unfolding validate_transition canonical_states terminal_states transitions
effect-CanEnd = (
  step_to "executing" refl (step_to "succeeded" refl (stop refl)),
  (
    step_to "approved" refl (step_to "executing" refl (step_to "succeeded" refl (stop refl))),
    (
      step_to "executing" refl (step_to "succeeded" refl (stop refl)),
      (
        step_to "succeeded" refl (stop refl),
        (
          stop refl,
          (
            stop refl,
            (
              step_to "reconciling" refl (step_to "succeeded" refl (stop refl)),
              (step_to "succeeded" refl (stop refl), (stop refl, tt)),
            ),
          ),
        ),
      ),
    ),
  ),
)

model_invocation-CanEnd : All (CanEnd "model_invocation") model_invocation_states
unfolding validate_transition canonical_states terminal_states transitions
model_invocation-CanEnd = (
  step_to "sent" refl (step_to "succeeded" refl (stop refl)),
  (
    step_to "succeeded" refl (stop refl),
    (stop refl, (stop refl, (step_to "reconciled" refl (stop refl), (stop refl, tt)))),
  ),
)

evidence-CanEnd : All (CanEnd "evidence") evidence_states
unfolding validate_transition canonical_states terminal_states transitions
evidence-CanEnd = (
  step_to "running" refl (step_to "pass" refl (stop refl)),
  (step_to "pass" refl (stop refl), (stop refl, (stop refl, (stop refl, (stop refl, tt))))),
)

-- No machine gets stuck: from every canonical state some validated history leads to a terminal state.
pub valid_CanEnd : (m s : String) → is_valid_state m s ≡ true → CanEnd m s
unfolding is_valid_state canonical_states
valid_CanEnd m s h =
    contains_All (CanEnd m) s _
      (get_All (λ k states. All (CanEnd k) states) m canonical_states []
        (
          run-CanEnd,
          (step-CanEnd, (effect-CanEnd, (model_invocation-CanEnd, (evidence-CanEnd, tt)))),
        )
        tt)
      h

terminal_refuses : (m s t : String) → is_terminal m s ≡ true → validate_transition m s t ≢ valid
terminal_refuses m s t h v =
    let e = (can_transition-inside m s t ((validate_transition_iff m s t).0 v)).1 in
    false≢true (sym e ∙ h)

stuck_terminal :
    (m s : String)
    → CanEnd m s
    → ((t : String) → validate_transition m s t ≢ valid)
    → is_terminal m s ≡ true
stuck_terminal m s (t, here, e) h = e
stuck_terminal m s (u, next {t = t} v p, e) h = absurd (h t v)

-- A canonical state is terminal exactly if the guard refuses every transition out of it, also one to itself.
pub is_terminal_iff :
    (m s : String)
    → is_valid_state m s ≡ true
    → (is_terminal m s ≡ true) ↔ ((t : String) → validate_transition m s t ≢ valid)
is_terminal_iff m s v =
    (λ h t. terminal_refuses m s t h, λ h. stuck_terminal m s (valid_CanEnd m s v) h)
