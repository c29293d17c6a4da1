-- ===== src/StateMachine/Graph.antt =====
-- What the transition table allows over whole paths: engine/core/state_machine.py.
use v10_engine.Prelude.{◌≡◌, refl, ◌⊎◌, inl, inr, Bool, true, false, not, List, [], ◌∷◌, arith, any}
use v10_engine.StateMachine.{
  NodeState, ready, in_progress, completed, invalid, awaiting_approval, needs_human, state_eq,
  is_valid, is_terminal,
}

-- A sequence of transitions, each allowed by the table. The list holds the states that it enters.
pub data Trail : NodeState → List NodeState → NodeState → Type 0 where
  here : {s : NodeState} → Trail s [] s
  step :
      {s u : NodeState} {l : List NodeState} (t : NodeState)
      → is_valid s t ≡ true
      → Trail t l u
      → Trail s (t ∷ l) u

abbrev pub visits : NodeState → List NodeState → Bool
visits s l = any (state_eq s) l

-- The states in which no agent has delivered anything yet.
abbrev pub before_work : NodeState → Bool
before_work in_progress = false
before_work awaiting_approval = false
before_work completed = false
before_work _ = true

before_work-step :
    (s t : NodeState)
    → before_work s ≡ true
    → is_valid s t ≡ true
    → (t ≡ in_progress) ⊎ (before_work t ≡ true)
unfolding is_valid
before_work-step s t b v = ground arith

-- A node that has not been worked on is completed only by way of IN_PROGRESS, whichever
-- transitions are taken.
pub completed_needs_in_progress :
    {s u : NodeState} {l : List NodeState}
    → Trail s l u
    → before_work s ≡ true
    → u ≡ completed
    → visits in_progress l ≡ true
unfolding state_eq
completed_needs_in_progress here b e = ground arith
completed_needs_in_progress (step {s = s} t v p) b e = elim (before_work-step s t b v) [
  | inl working ↦ ground arith
  | inr still ↦ ground (arith, completed_needs_in_progress p still e)
]

-- Every state has a sequence of allowed transitions to COMPLETED, FAILED and SKIPPED included.
pub reach_completed : (s : NodeState) → (l : List NodeState) × Trail s l completed
unfolding is_valid
reach_completed completed = ([], here)
reach_completed in_progress = (completed ∷ [], step completed refl here)
reach_completed awaiting_approval = (completed ∷ [], step completed refl here)
reach_completed ready =
    (in_progress ∷ completed ∷ [], step in_progress refl (step completed refl here))
reach_completed needs_human =
    (in_progress ∷ completed ∷ [], step in_progress refl (step completed refl here))
reach_completed _ = (
  ready ∷ in_progress ∷ completed ∷ [],
  step ready refl (step in_progress refl (step completed refl here)),
)

-- INVALID may be entered from every state but INVALID itself.
pub is_valid-invalid : (s : NodeState) → is_valid s invalid ≡ not (state_eq s invalid)
unfolding is_valid
is_valid-invalid s = ground arith

-- FAILED counts as terminal, and the table lets it go on to READY and to INVALID.
pub terminal_not_final :
    (s : NodeState) → is_terminal s ≡ true → (is_valid s ready ≡ true) × (is_valid s invalid ≡ true)
unfolding is_terminal is_valid
terminal_not_final s h = ground arith

-- A completed node is left by way of INVALID only, so its first step is an invalidation.
pub completed_left_by_invalid :
    {u t : NodeState} {l : List NodeState} → Trail completed (t ∷ l) u → t ≡ invalid
unfolding is_valid
completed_left_by_invalid (step t v p) = ground arith
