-- ===== src/ExecutorCascade/Examples.antt =====
-- Examples for engine/skills/executor_cascade.py: task 1 stands above task 2, and a gate of their
-- phase has been passed.
use v10_engine.Prelude.{ℕ, suc, ◌≡◌, refl, true, none, some, [], ◌∷◌, ◌++◌, ◌==◌, arith}
use v10_engine.Prelude.Text.{codes}
use v10_engine.StateMachine.{not_started, one_of, completed, invalid, gate, task, state_eq}
use v10_engine.Store.{rows_affected, at_version, NodeRow, contextual, select}
use v10_engine.Store.World.{World, quiet}
use v10_engine.Advancer.Samples.{sample_world, sample_db, row_at_state}
use v10_engine.ExecutorCascade.{phase_eq, Classify, cascade_for_node}
use v10_engine.ExecutorCascade.Rows.{Invalidated, cascade_for_node-Invalidated}
use v10_engine.ExecutorCascade.Resets.{
  bystander, cascade_for_node-bystander, cascade_for_node-unnoticed,
}
use v10_engine.ExecutorCascade.Early.{Reopened, invalidate_early_completed_downstreams-Reopened}
use v10_engine.ExecutorCascade.Trigger.{
  Service, meaningful_diff, trigger_downstream_cascade, invalidate_early_completed_downstreams,
}
use v10_engine.ExecutorCascade.Loop.{trigger_downstream_cascade-reaches}

abbrev done_row : ℕ → NodeRow
done_row i = record (row_at_state i completed) { completed_at = some 2 }

abbrev passed_gate : NodeRow
passed_gate = record (done_row 3) { node_type = gate }

abbrev done_world : World
done_world = record sample_world {
  db = record sample_db { nodes = done_row 1 ∷ done_row 2 ∷ passed_gate ∷ [] };
}

abbrev clock_of_day : ℕ → ℕ
clock_of_day n = suc (suc (suc n))

abbrev all_contextual : Classify
all_contextual i node_type = record { change_type = contextual; affected_sections = [] }

cascade_for_node-Invalidated_example :
    (r' : NodeRow) × (select 2
        (cascade_for_node (quiet clock_of_day) true all_contextual 1 2 task done_world).nodes
      ≡ some r')
    × Invalidated 1 (done_row 2) r'
unfolding select one_of
cascade_for_node-Invalidated_example =
    cascade_for_node-Invalidated clock_of_day true all_contextual 1 2 task done_world (done_row 2)
      refl refl

cascade_for_node-bystander_example :
    select 3 (cascade_for_node (quiet clock_of_day) true all_contextual 1 2 task done_world).nodes
    ≡ some (bystander (clock_of_day 1) 2 (done_row 2) passed_gate)
unfolding select
cascade_for_node-bystander_example =
    cascade_for_node-bystander clock_of_day true all_contextual 1 2 3 task done_world (done_row 2)
      passed_gate refl refl (omega arith)

cascade_for_node-unnoticed_example :
    let v = cascade_for_node (quiet clock_of_day) true all_contextual 1 2 task done_world in
    (r' : NodeRow) × (select 3 v.nodes ≡ some r')
    × (r'.state ≡ not_started)
    × (r'.version ≡ 4)
    × (rows_affected 3 (at_version 4) v.nodes ≡ 1)
unfolding select phase_eq
cascade_for_node-unnoticed_example =
    cascade_for_node-unnoticed clock_of_day true all_contextual 1 2 3 task done_world (done_row 2)
      passed_gate refl refl (omega arith) refl refl refl refl

invalidate_early_completed_downstreams-Reopened_example :
    (r' : NodeRow) × (select 2
        (invalidate_early_completed_downstreams (quiet clock_of_day) 1 done_world).nodes
      ≡ some r')
    × Reopened (done_row 2) r'
unfolding select state_eq
invalidate_early_completed_downstreams-Reopened_example =
    invalidate_early_completed_downstreams-Reopened clock_of_day 1 2 done_world (done_row 2) refl
      refl refl

-- A server whose diff has one added line.
abbrev small_service : Service
small_service = record {
  is_space = λ c. c == 32;
  lower = λ t. t;
  upper = λ t. t;
  unified_diff = λ old new. codes "+b" ∷ [];
  call = λ t. none;
  loads = λ t. none;
  names = λ i. codes "Page";
  has_advancer = true;
}

trigger_downstream_cascade-reaches_example :
    (r' : NodeRow) × (select 2
        (trigger_downstream_cascade small_service
          (quiet clock_of_day)
          1
          (some (codes "ab") ∷ some (codes "a") ∷ [])
          done_world).nodes
      ≡ some r')
    × (state_eq r'.state invalid ≡ true)
unfolding select meaningful_diff state_eq
trigger_downstream_cascade-reaches_example =
    trigger_downstream_cascade-reaches small_service clock_of_day 1 2 (some (codes "ab"))
      (some (codes "a")) [] done_world (codes "+b" ++ 10 ∷ []) (done_row 2) refl refl refl refl
