-- ===== src/Cascade/Examples.antt =====
-- Examples for engine/core/cascade.py, on a DAG of three tasks in a row.
use v10_engine.StateMachine.{state_eq, is_valid, invalid, completed, not_started}
use v10_engine.Store.{write_row, NodeRow, contextual, select}
use v10_engine.Prelude.{◌+◌, ◌↔◌, ℕ, ◌≡◌, refl, true, false, none, some, [], ◌∷◌, elem, arith}
use v10_engine.Prelude.Distinct.{Distinct}
use v10_engine.Store.World.{World, Env, quiet, yield_to, Respects}
use v10_engine.NodeOps.{reset_to_ready}
use v10_engine.NodeOps.Lock.{reset_to_ready-Follows}
use v10_engine.Advancer.Samples.{sample_world, sample_db, row_at_state}
use v10_engine.Advancer.Transition.Safety.{Run}
use v10_engine.Cascade.{mark_row, phase1_mark_pending, phase2_apply_invalid, process_pending_batch}
use v10_engine.Cascade.Downstream.{downstream_nodes, children, visit_child}
use v10_engine.Cascade.Reach.{Reaches, downstream_nodes_exact}
use v10_engine.Cascade.Phase1.{phase1_mark_pending_marks, marked}
use v10_engine.Cascade.Phase2.{Settles, phase2_apply_invalid-Settles}
use v10_engine.Cascade.Batch.{process_pending_batch_clears}
use v10_engine.Cascade.Safety.{phase2_apply_invalid-Run}
use v10_engine.Cascade.Cleanup.{Format, cleanup_timed_out, cleanup_timed_out-SameDay}

abbrev pending_row : ℕ → NodeRow
pending_row i = record (row_at_state i completed) {
  invalidation_pending = true;
  invalidation_queued_at = some 1000000;
}

abbrev pending_world : World
pending_world = record sample_world {
  db = record sample_db { nodes = pending_row 1 ∷ pending_row 2 ∷ row_at_state 3 not_started ∷ [] };
}

-- Another task that resets node 2 to READY at each of its turns.
abbrev resetting : Env
resetting = record {
  others = λ n db. record db { nodes = reset_to_ready n 2 true true true db.nodes };
  clock = λ n. n;
}

resetting-Respects : Respects resetting
resetting-Respects = record {
  each = λ n db i. reset_to_ready-Follows n 2 true true true db.nodes i;
}

downstream_nodes_exact_example :
    Distinct (downstream_nodes sample_world.edges 1)
    × ((a : ℕ)
        → (elem a (downstream_nodes sample_world.edges 1) ≡ true) ↔ Reaches sample_world.edges 1 a)
downstream_nodes_exact_example = downstream_nodes_exact sample_world.edges 1

phase1_mark_pending_marks_example :
    select 3 (phase1_mark_pending (quiet (λ n. n)) 1 contextual none sample_world).1.nodes
    ≡ some (mark_row 1 0 contextual [] (row_at_state 3 not_started))
unfolding select downstream_nodes children marked visit_child
phase1_mark_pending_marks_example =
    phase1_mark_pending_marks (λ n. n) 1 contextual none sample_world 3 (row_at_state 3 not_started)
      refl

phase2_apply_invalid-Settles_example :
    Settles 1 (pending_row 1) (phase2_apply_invalid (quiet (λ n. n)) true 1 pending_world)
unfolding select
phase2_apply_invalid-Settles_example =
    phase2_apply_invalid-Settles (λ n. n) true 1 pending_world (pending_row 1) refl

phase2_apply_invalid-Run_example :
    Run resetting pending_world (phase2_apply_invalid resetting true 2 pending_world).1
phase2_apply_invalid-Run_example =
    phase2_apply_invalid-Run resetting true 2 pending_world resetting-Respects

abbrev cleared_row : NodeRow
cleared_row = record (pending_row 1) {
  state = invalid;
  invalidation_pending = false;
  version = 5;
  updated_at = 2;
}

process_pending_batch_clears_example : cleared_row.invalidation_pending ≡ false
unfolding process_pending_batch select yield_to state_eq is_valid write_row
process_pending_batch_clears_example =
    process_pending_batch_clears (λ n. n) false 2 pending_world (omega arith) 1 cleared_row refl

-- The dates and times as plain counts.
abbrev plain_format : Format
plain_format = record { date = λ day. (48 + day) ∷ []; iso_time = λ t. []; sql_time = λ t. [] }

-- Queued at noon, and still there half a day later.
abbrev noon_world : World
noon_world = record pending_world {
  db = record sample_db {
    nodes =
        record (pending_row 1) { invalidation_queued_at = some 43200000000 }
        ∷ row_at_state 3 not_started
        ∷ [];
  };
}

cleanup_timed_out-SameDay_example :
    cleanup_timed_out plain_format (quiet (λ n. 86399000000)) false noon_world
    ≡ (0, yield_to (quiet (λ n. 86399000000)) noon_world)
unfolding yield_to
cleanup_timed_out-SameDay_example =
    cleanup_timed_out-SameDay plain_format (quiet (λ n. 86399000000)) false noon_world
      (refl, (tt, tt))
