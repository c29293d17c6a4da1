-- ===== src/Advancer/Transition/Alone.antt =====
-- `_transition_node` of engine/core/dag_advancer.py while no other task writes.
use v10_engine.Prelude.{ℕ, suc, ◌≡◌, refl, ◌∙◌, true, false, none, some, arith}
use v10_engine.StateMachine.{NodeState, is_valid, transition}
use v10_engine.Store.{NodeRow, at_version, select, write_row, rows_affected}
use v10_engine.Store.Laws.{rows_affected-eq-hits, select-write_row_self}
use v10_engine.Store.World.{World, Env, quiet, yield_to}
use v10_engine.Advancer.{NodeSnapshot}
use v10_engine.Advancer.Transition.{set_state, after_execute, attempts, transition_node}

-- The row of the node has the version of the snapshot.
pub record IsCurrent (node : NodeSnapshot) (w : World) : Type 0 where
  pub row : NodeRow
  pub found : select node.id w.nodes ≡ some row
  pub same_version : row.version ≡ node.version

module _ (clock : ℕ → ℕ) (to : NodeState) (node : NodeSnapshot) (w : World) where
  -- The world after the one statement that the call needs.
  abbrev pub moved_world : World
  moved_world = record w {
    db = record w.db {
      nodes = write_row node.id (at_version node.version) (set_state to (clock w.awaits)) w.nodes;
    };
    awaits = suc w.awaits;
  }

  -- With the row at the version of the snapshot, the first attempt writes the new state.
  pub transition_node_alone :
      IsCurrent node w
      → is_valid node.state to ≡ true
      → transition_node (quiet clock) to node w ≡ record {
        node = record node { state = to; version = suc node.version };
        world = moved_world;
        raised = none;
      }
  unfolding transition_node transition yield_to
  transition_node_alone s v =
      let e : rows_affected node.id (at_version node.version) w.nodes ≡ 1 =
        rows_affected-eq-hits node.id (at_version node.version) w.nodes
        ∙ ground (arith, s.found, s.same_version) in
      rw (v, attempts) (rw (e, after_execute) refl)

  -- A transition that the table does not have raises, and nothing is written.
  pub transition_node_refused :
      (env : Env)
      → is_valid node.state to ≡ false
      → transition_node env to node w ≡ record {
        node = node;
        world = w;
        raised = some (record { from_state = node.state; to_state = to; node_id = node.id });
      }
  unfolding transition_node transition
  transition_node_refused env v = rw (v, attempts) refl

-- The row after a lone transition.
pub select-moved_world :
    (clock : ℕ → ℕ) (to : NodeState) (node : NodeSnapshot) (w : World) (c : IsCurrent node w)
    → select node.id (moved_world clock to node w).nodes
      ≡ some (set_state to (clock w.awaits) c.row)
select-moved_world clock to node w c =
    select-write_row_self node.id (at_version node.version) (set_state to (clock w.awaits)) w.nodes
      (λ r. refl)
    ∙ ground (arith, c.found, c.same_version)
