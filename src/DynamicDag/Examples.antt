-- ===== src/DynamicDag/Examples.antt =====
-- Examples for engine/core/dynamic_dag.py, on a DAG of three tasks in a row.
use v10_engine.Prelude.{◌≤◌, ◌≡◌, ◌++◌, inl, inr, arith, refl, false, none, [], ◌∷◌}
use v10_engine.StateMachine.{task, build}
use v10_engine.Store.{running, select, select_dag}
use v10_engine.Store.World.{quiet}
use v10_engine.Advancer.Samples.{sample_world}
use v10_engine.Cascade.Downstream.{children}
use v10_engine.Cascade.Reach.{Reaches, edge, beyond}
use v10_engine.DynamicDag.{
  max_injections_per_dag, clashes, in_dag, count_injected_nodes, active_edge, edge_insert_failed,
  NodeSpec, inject_node,
}
use v10_engine.DynamicDag.Ends.{Outcome}
use v10_engine.DynamicDag.Bound.{inject_node_bounded}
use v10_engine.DynamicDag.Cycle.{takes, injection_closes_cycle}

abbrev spec : NodeSpec
spec = record {
  node_type = task;
  phase = build;
  priority = 5;
  max_retries = 2;
  gate_auto_approve = false;
  description = [];
}

one_to_three : Reaches sample_world.edges 1 3
unfolding children
one_to_three = beyond 3 (edge 2 refl) refl

-- A node is injected below the last task and above the first.
injection_closes_cycle_example :
    let r = inject_node (quiet (λ n. n)) 9 7 3 spec (1 ∷ []) none sample_world in
    (r.outcome ≡ inr 9) × Reaches r.world.edges 9 9
unfolding select select_dag in_dag count_injected_nodes takes clashes
injection_closes_cycle_example =
    injection_closes_cycle (λ n. n) 9 7 3 spec (1 ∷ []) sample_world 1
      (record { dag = 7; status = running; topo_order = []; dag_version = 1 }) refl (omega arith)
      refl refl refl refl refl one_to_three

-- A child that is named twice: the node and two edges stay.
twice_named :
    let r = inject_node (quiet (λ n. n)) 9 7 1 spec (3 ∷ 3 ∷ []) none sample_world in
    (r.outcome ≡ inl edge_insert_failed)
    × (r.world.edges ≡ sample_world.edges ++ active_edge 7 1 9 ∷ active_edge 7 9 3 ∷ [])
unfolding inject_node select_dag select
twice_named = (refl, refl)

inject_node_bounded_example :
    count_injected_nodes 7
      (inject_node (quiet (λ n. n)) 9 7 1 spec (3 ∷ 3 ∷ []) none sample_world).world.nodes
    ≤ max_injections_per_dag
unfolding count_injected_nodes
inject_node_bounded_example =
    inject_node_bounded (λ n. n) 9 7 1 spec (3 ∷ 3 ∷ []) none sample_world (omega arith)
