-- ===== src/StateMachine.antt =====
-- map-business-backend/app/runtime/state_machine.py: the frozen tables of the five state machines,
-- the look-ups in them, and the guard in front of every transition. Machines and states are the
-- texts of the source; a `dict` is the list of its items, a `frozenset` or tuple the list of its
-- elements.
pub mod Edges
pub mod Paths
pub mod Examples
use mathlib.Core.List
use map.Base.{
  String, Bool, true, false, ◌||◌, Option, none, some, List, [], ◌∷◌, ◌++◌, str_eq, if◌then◌else◌,
}

-- `x in xs`
unfoldable pub contains : String → List String → Bool
contains s [] = false
contains s (x ∷ xs) = str_eq x s || contains s xs

abbrev pub Dict {ℓ} : Type ℓ → Type ℓ
Dict V = List (String × V)

-- `d.get(key, default)`
unfoldable pub get {ℓ} : {V : Type ℓ} → String → Dict V → V → V
get k [] d = d
get k ((j, v) ∷ rest) d = if str_eq j k then v else get k rest d

-- `d[key]`, where a missing key raises
pub get_item {ℓ} : {V : Type ℓ} → String → Dict V → Option V
get_item k [] = none
get_item k ((j, v) ∷ rest) = if str_eq j k then some v else get_item k rest

abbrev pub run_states : List String
run_states =
    "queued" ∷ "running" ∷ "paused" ∷ "completed" ∷ "failed" ∷ "cancelling" ∷ "cancelled"
    ∷ "timed_out" ∷ []

abbrev pub step_states : List String
step_states =
    "pending" ∷ "ready" ∷ "running" ∷ "waiting_approval" ∷ "succeeded" ∷ "failed" ∷ "skipped"
    ∷ "cancelled" ∷ []

abbrev pub effect_states : List String
effect_states =
    "planned" ∷ "approval_required" ∷ "approved" ∷ "executing" ∷ "succeeded" ∷ "failed"
    ∷ "uncertain" ∷ "reconciling" ∷ "cancelled" ∷ []

abbrev pub model_invocation_states : List String
model_invocation_states =
    "planned" ∷ "sent" ∷ "succeeded" ∷ "failed" ∷ "unknown" ∷ "reconciled" ∷ []

abbrev pub evidence_states : List String
evidence_states =
    "not-run" ∷ "running" ∷ "pass" ∷ "fail" ∷ "blocked" ∷ "not-applicable-approved" ∷ []

pub canonical_states : Dict (List String)
canonical_states =
    ("run", run_states)
    ∷ ("step", step_states)
    ∷ ("effect", effect_states)
    ∷ ("model_invocation", model_invocation_states)
    ∷ ("evidence", evidence_states)
    ∷ []

pub terminal_states : Dict (List String)
terminal_states =
    ("run", "completed" ∷ "failed" ∷ "cancelled" ∷ "timed_out" ∷ [])
    ∷ ("step", "succeeded" ∷ "failed" ∷ "skipped" ∷ "cancelled" ∷ [])
    ∷ ("effect", "succeeded" ∷ "failed" ∷ "cancelled" ∷ [])
    ∷ ("model_invocation", "succeeded" ∷ "failed" ∷ "reconciled" ∷ [])
    ∷ ("evidence", "pass" ∷ "fail" ∷ "blocked" ∷ "not-applicable-approved" ∷ [])
    ∷ []

abbrev run_transitions : Dict (List String)
run_transitions =
    ("queued", "running" ∷ "cancelling" ∷ "cancelled" ∷ "timed_out" ∷ [])
    ∷ ("running", "paused" ∷ "completed" ∷ "failed" ∷ "cancelling" ∷ "timed_out" ∷ [])
    ∷ ("paused", "running" ∷ "cancelling" ∷ [])
    ∷ ("cancelling", "cancelled" ∷ [])
    ∷ []

abbrev step_transitions : Dict (List String)
step_transitions =
    ("pending", "ready" ∷ "skipped" ∷ "cancelled" ∷ [])
    ∷ ("ready", "running" ∷ "skipped" ∷ "cancelled" ∷ [])
    ∷ ("running", "waiting_approval" ∷ "succeeded" ∷ "failed" ∷ "cancelled" ∷ [])
    ∷ ("waiting_approval", "running" ∷ "failed" ∷ "cancelled" ∷ [])
    ∷ []

abbrev effect_transitions : Dict (List String)
effect_transitions =
    ("planned", "approval_required" ∷ "executing" ∷ "cancelled" ∷ [])
    ∷ ("approval_required", "approved" ∷ "cancelled" ∷ [])
    ∷ ("approved", "executing" ∷ "cancelled" ∷ [])
    ∷ ("executing", "succeeded" ∷ "failed" ∷ "uncertain" ∷ "cancelled" ∷ [])
    ∷ ("uncertain", "reconciling" ∷ [])
    ∷ ("reconciling", "succeeded" ∷ "failed" ∷ [])
    ∷ []

abbrev model_invocation_transitions : Dict (List String)
model_invocation_transitions =
    ("planned", "sent" ∷ "failed" ∷ [])
    ∷ ("sent", "succeeded" ∷ "failed" ∷ "unknown" ∷ [])
    ∷ ("unknown", "reconciled" ∷ [])
    ∷ []

abbrev evidence_transitions : Dict (List String)
evidence_transitions =
    ("not-run", "running" ∷ [])
    ∷ ("running", "pass" ∷ "fail" ∷ "blocked" ∷ "not-applicable-approved" ∷ [])
    ∷ []

pub transitions : Dict (Dict (List String))
transitions =
    ("run", run_transitions)
    ∷ ("step", step_transitions)
    ∷ ("effect", effect_transitions)
    ∷ ("model_invocation", model_invocation_transitions)
    ∷ ("evidence", evidence_transitions)
    ∷ []

pub record Transition : Type 0 where
  pub machine : String
  pub current : String
  pub target : String

pub is_valid_state : String → String → Bool
unfolding contains get
is_valid_state machine state = contains state (get machine canonical_states [])

pub is_terminal : String → String → Bool
unfolding contains get
is_terminal machine state = contains state (get machine terminal_states [])

pub can_transition : String → String → String → Bool
unfolding contains get
can_transition machine current target =
    contains target (get current (get machine transitions []) [])

pub all_states : String → Option (List String)
unfolding get_item
all_states machine = get_item machine canonical_states

-- The two loops of the comprehension of `all_transitions`.
pub targets_of : String → String → List String → List Transition
targets_of machine current =
    List.map λ target. record { machine = machine; current = current; target = target }

pub items_of : String → Dict (List String) → List Transition
unfolding targets_of
items_of machine [] = []
items_of machine ((current, targets) ∷ rest) =
    targets_of machine current targets ++ items_of machine rest

pub all_transitions : String → List Transition
unfolding items_of get
all_transitions machine = items_of machine (get machine transitions [])

-- `StateTransitionError` keeps the transition that was refused.
pub data Validation : Type 0 where
  valid : Validation
  state_transition_violation : Transition → Validation

abbrev refuse : String → String → String → Validation
refuse m c t = state_transition_violation (record { machine = m; current = c; target = t })

pub validate_transition : String → String → String → Validation
unfolding is_valid_state is_terminal can_transition
validate_transition machine current target =
    if is_valid_state machine current
    then (if is_terminal machine current
        then refuse machine current target
        else if can_transition machine current target
        then valid
        else refuse machine current target)
    else refuse machine current target

abbrev run_cancel_allowed : List String
run_cancel_allowed = "queued" ∷ "running" ∷ "paused" ∷ []

pub run_cancel_allowed_from : String → Bool
unfolding contains
run_cancel_allowed_from state = contains state run_cancel_allowed
