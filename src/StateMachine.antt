-- ===== src/StateMachine.antt =====
-- The node state machine, engine/core/state_machine.py: the states, the table of allowed
-- transitions, and the methods of `StateMachine`.
pub mod Graph
mod Examples
use v10_engine.Prelude.{
  ℕ, Bool, true, false, not, List, [], ◌∷◌, any, if◌then◌else◌, Option, none, some,
}

pub data NodeState : Type 0 where
  not_started ready in_progress completed blocked invalid : NodeState
  awaiting_approval needs_human suspended failed skipped : NodeState

pub data SuspensionReason : Type 0 where
  budget_exceeded circuit_breaker shutdown_drain : SuspensionReason

pub data Phase : Type 0 where
  define design build verify deliver : Phase

pub data NodeType : Type 0 where
  task qa gate : NodeType

-- `==` on two members of the enumeration.
unfoldable pub state_eq : NodeState → NodeState → Bool
state_eq not_started not_started = true
state_eq ready ready = true
state_eq in_progress in_progress = true
state_eq completed completed = true
state_eq blocked blocked = true
state_eq invalid invalid = true
state_eq awaiting_approval awaiting_approval = true
state_eq needs_human needs_human = true
state_eq suspended suspended = true
state_eq failed failed = true
state_eq skipped skipped = true
state_eq _ _ = false

-- `s in {…}`
unfoldable pub one_of : List NodeState → NodeState → Bool
unfolding state_eq
one_of states s = any (state_eq s) states

unfoldable pub valid_transitions : NodeState → List NodeState
valid_transitions not_started = ready ∷ blocked ∷ invalid ∷ skipped ∷ []
valid_transitions ready = in_progress ∷ blocked ∷ invalid ∷ []
valid_transitions in_progress =
    completed ∷ failed ∷ invalid ∷ needs_human ∷ suspended ∷ awaiting_approval ∷ ready ∷ []
valid_transitions completed = invalid ∷ []
valid_transitions blocked = ready ∷ not_started ∷ invalid ∷ []
valid_transitions invalid = ready ∷ not_started ∷ blocked ∷ []
valid_transitions awaiting_approval = completed ∷ invalid ∷ []
valid_transitions needs_human = in_progress ∷ invalid ∷ failed ∷ []
valid_transitions suspended = ready ∷ invalid ∷ failed ∷ []
valid_transitions failed = ready ∷ invalid ∷ []
valid_transitions skipped = ready ∷ invalid ∷ []

unfoldable pub is_valid : NodeState → NodeState → Bool
unfolding one_of valid_transitions
is_valid from_state to_state = one_of (valid_transitions from_state) to_state

-- The exception `InvalidTransitionError`.
pub record InvalidTransitionError : Type 0 where
  pub from_state : NodeState
  pub to_state : NodeState
  pub node_id : ℕ

-- `none` when the transition is allowed, the exception that is raised otherwise.
unfoldable pub transition : NodeState → NodeState → ℕ → Option InvalidTransitionError
unfolding is_valid
transition from to node_id =
    if is_valid from to
    then none
    else some (record { from_state = from; to_state = to; node_id = node_id })

unfoldable pub is_terminal : NodeState → Bool
unfolding one_of
is_terminal state = one_of (failed ∷ []) state

unfoldable pub is_active : NodeState → Bool
unfolding state_eq
is_active state = state_eq state in_progress

unfoldable pub is_blocking : NodeState → Bool
unfolding one_of
is_blocking = one_of (
    not_started ∷ ready ∷ in_progress ∷ blocked ∷ invalid ∷ awaiting_approval ∷ needs_human
    ∷ suspended ∷ failed ∷ [])
