-- ===== src/NodeOps/Examples.antt =====
-- Examples for engine/core/node_ops.py.
use v10_engine.Prelude.{◌≡◌, refl, some, none, []}
use v10_engine.StateMachine.{in_progress, completed, failed, is_valid}
use v10_engine.NodeOps.{mark_completed}
use v10_engine.Store.{select, state_of}
use v10_engine.Store.World.{quiet, set_nodes}
use v10_engine.Advancer.Samples.{sample_world, node_at_state, row_at_state}
use v10_engine.Advancer.Transition.{transition_node}
use v10_engine.Advancer.Transition.Alone.{IsCurrent}
use v10_engine.NodeOps.Lock.{mark_completed_overwritten}

current : IsCurrent (node_at_state 1 in_progress []) sample_world
unfolding select
current = record { row = row_at_state 1 in_progress; found = refl; same_version = refl }

-- The node is completed, and a stale snapshot then fails it.
mark_completed_overwritten_example :
    let node = node_at_state 1 in_progress [] in
    let v = set_nodes sample_world (mark_completed 5 1 none sample_world.nodes) in
    (state_of (select 1 v.nodes) ≡ some completed)
    × (state_of (select 1 (transition_node (quiet (λ n. n)) failed node v).world.nodes)
        ≡ some failed)
unfolding is_valid
mark_completed_overwritten_example =
    mark_completed_overwritten (λ n. n) 5 none (node_at_state 1 in_progress []) failed sample_world
      current refl
