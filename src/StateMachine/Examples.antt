-- ===== src/StateMachine/Examples.antt =====
-- Examples for engine/core/state_machine.py.
use v10_engine.Prelude.{refl, [], ◌∷◌}
use v10_engine.StateMachine.{not_started, ready, in_progress, completed, failed, is_valid}
use v10_engine.StateMachine.Graph.{Trail, here, step}

-- A node that is run, fails and is run again.
rerun :
    Trail not_started
      (ready ∷ in_progress ∷ failed ∷ ready ∷ in_progress ∷ completed ∷ [])
      completed
unfolding is_valid
rerun = step ready refl (
    step in_progress refl
      (step failed refl (step ready refl (step in_progress refl (step completed refl here)))))
