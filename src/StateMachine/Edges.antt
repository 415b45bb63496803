-- ===== src/StateMachine/Edges.antt =====
-- What the tables of state_machine.py say: the enumeration of the transitions, and facts that hold
-- of every one of them.
use map.Base.{
  String, Bool, true, false, not, ◌&&◌, ◌≡◌, refl, ◌↔◌, inl, inr, List, [], ◌∷◌, ◌++◌, str_eq,
  eq_iff, All, Bool-cases, &&-eq-true, arith, subst, sym, ◌∙◌,
}
use map.StateMachine.{
  contains, Dict, get, Transition, is_valid_state, is_terminal, can_transition, targets_of,
  items_of, all_transitions, transitions, valid, validate_transition, run_cancel_allowed_from,
  canonical_states, terminal_states,
}

-- What holds of every element holds of each text that the list contains.
pub contains_All {ℓ} :
    (P : String → Type ℓ) (s : String) (xs : List String) → All P xs → contains s xs ≡ true → P s
unfolding contains
contains_All P s [] a h = cc
contains_All P s (x ∷ xs) a h = elim (Bool-cases (str_eq x s)) [
  | inl e ↦ subst P ((eq_iff x s).0 e) a.0
  | inr e ↦ contains_All P s xs a.1 (ground arith)
]

-- What holds of every item of a dict, and of the default, holds of each look-up.
pub get_All {ℓ κ} :
    {V : Type ℓ} (P : String → V → Type κ) (k : String) (items : Dict V) (d : V)
    → All (λ p. P p.0 p.1) items
    → P k d
    → P k (get k items d)
unfolding get
get_All P k [] d a h = h
get_All P k ((j, v) ∷ rest) d a h = elim (Bool-cases (str_eq j k)) [
  | inl e ↦ rw e (subst (λ x. P x v) ((eq_iff j k).0 e) a.0)
  | inr e ↦ rw e (get_All P k rest d a.1 h)
]

-- A test that passes on every listed transition passes on each that the table allows.
unfoldable pub every : (Transition → Bool) → List Transition → Bool
every p [] = true
every p (t ∷ ts) = p t && every p ts

abbrev pub edge : String → String → String → Transition
edge m c t = record { machine = m; current = c; target = t }

every-append :
    (p : Transition → Bool) (xs ys : List Transition)
    → every p (xs ++ ys) ≡ every p xs && every p ys
unfolding every
every-append p [] ys = refl
every-append p (x ∷ xs) ys = ground (arith, every-append p xs ys)

every-targets_of :
    (p : Transition → Bool) (m c t : String) (ts : List String)
    → every p (targets_of m c ts) ≡ true
    → contains t ts ≡ true
    → p (edge m c t) ≡ true
unfolding every targets_of contains
every-targets_of p m c t [] a h = cc
every-targets_of p m c t (x ∷ xs) a h = elim (Bool-cases (str_eq x t)) [
  | inl e ↦ subst (λ y. p (edge m c y) ≡ true) ((eq_iff x t).0 e) (ground arith)
  | inr e ↦ every-targets_of p m c t xs (ground arith) (ground arith)
]

every-items_of :
    (p : Transition → Bool) (m c t : String) (rows : Dict (List String))
    → every p (items_of m rows) ≡ true
    → contains t (get c rows []) ≡ true
    → p (edge m c t) ≡ true
unfolding items_of get contains
every-items_of p m c t [] a h = cc
every-items_of p m c t ((j, ts) ∷ rest) a h =
    let both = &&-eq-true _ _ (sym (every-append p (targets_of m j ts) (items_of m rest)) ∙ a) in
    elim (Bool-cases (str_eq j c)) [
      | inl e ↦
          subst (λ y. p (edge m y t) ≡ true) ((eq_iff j c).0 e)
            (every-targets_of p m j t ts both.0 (rw e at h))
      | inr e ↦ every-items_of p m c t rest both.1 (rw e at h)
    ]

-- `all_transitions` leaves no allowed transition out: a test that passes on all that it lists passes on
-- every transition that `can_transition` accepts.
pub every-all_transitions :
    (p : Transition → Bool) (m c t : String)
    → every p (all_transitions m) ≡ true
    → can_transition m c t ≡ true
    → p (edge m c t) ≡ true
unfolding all_transitions can_transition
every-all_transitions p m c t a h = every-items_of p m c t (get m transitions []) a h

-- One evaluation of the tables, for all five machines, decides a test on every allowed transition.
pub every-edge :
    (p : Transition → Bool)
    → All (λ item. every p (items_of item.0 item.1) ≡ true) transitions
    → (m c t : String) → can_transition m c t ≡ true
    → p (edge m c t) ≡ true
unfolding every items_of
every-edge p a m c t h =
    every-all_transitions p m c t
      (unfold all_transitions in
        get_All (λ k rows. every p (items_of k rows) ≡ true) m transitions [] a refl)
      h

inside_tables : Transition → Bool
inside_tables t =
    is_valid_state t.machine t.current
    && (not (is_terminal t.machine t.current) && is_valid_state t.machine t.target)

-- Whatever the machine: a transition that the table allows starts in a canonical state that is not terminal, and ends
-- in a canonical state.
pub can_transition-inside :
    (m c t : String)
    → can_transition m c t ≡ true
    → (is_valid_state m c ≡ true) × (is_terminal m c ≡ false) × (is_valid_state m t ≡ true)
unfolding inside_tables
can_transition-inside m c t h = ground (
  arith,
  every-edge inside_tables
      (unfold transitions every items_of targets_of is_valid_state is_terminal canonical_states
          terminal_states in
        (refl, (refl, (refl, (refl, (refl, tt))))))
      m c t h,
)

-- The guard accepts exactly the transitions of the table: its tests for unknown and for terminal states refuse
-- nothing that the table would let through.
pub validate_transition_iff :
    (m c t : String) → (validate_transition m c t ≡ valid) ↔ (can_transition m c t ≡ true)
validate_transition_iff m c t = (
  unfold validate_transition in λ h. ground arith,
  λ h. unfold validate_transition in ground (arith, can_transition-inside m c t h),
)

-- `all_transitions` lists only transitions that `can_transition` accepts.
pub all_transitions_sound :
    (m : String)
    → every (λ t. can_transition t.machine t.current t.target) (all_transitions m) ≡ true
unfolding all_transitions transitions every items_of targets_of can_transition
all_transitions_sound m =
    get_All
      (λ k rows. every (λ t. can_transition t.machine t.current t.target) (items_of k rows) ≡ true)
      m transitions [] (refl, (refl, (refl, (refl, (refl, tt))))) refl

-- A run may be cancelled from exactly the states that have an edge to `cancelling`.
pub run_cancel_allowed_from_iff :
    (s : String) → run_cancel_allowed_from s ≡ can_transition "run" s "cancelling"
unfolding run_cancel_allowed_from can_transition transitions
run_cancel_allowed_from_iff s = ground arith
