-- ===== src/NodeOps/Lock.antt =====
-- How the writes of engine/core/node_ops.py meet the optimistic lock of
-- engine/core/dag_advancer.py.
use v10_engine.Prelude.{ℕ, ◌≡◌, refl, ◌∙◌, ap, Bool, true, Option, some, List}
use v10_engine.StateMachine.{NodeState, completed, is_valid}
use v10_engine.Store.{NodeRow, Text, any_row, select, state_of}
use v10_engine.Store.Laws.{updated, select-write_row_self}
use v10_engine.Store.World.{World, quiet, set_nodes, Follows}
use v10_engine.Store.Protocol.{write_row-Follows}
use v10_engine.Advancer.{NodeSnapshot}
use v10_engine.Advancer.Transition.{transition_node}
use v10_engine.Advancer.Transition.Alone.{IsCurrent, select-moved_world, transition_node_alone}
use v10_engine.NodeOps.{mark_completed, reset_to_ready, reset_row, complete_row}

-- `reset_to_ready` keeps to the protocol of the lock: whatever was read before it is out of date.
pub reset_to_ready-Follows :
    (at i : ℕ) (retry stall desc : Bool) (rows : List NodeRow) (j : ℕ)
    → Follows (select j rows) (select j (reset_to_ready at i retry stall desc rows))
unfolding reset_to_ready
reset_to_ready-Follows at i retry stall desc rows j =
    write_row-Follows i any_row (reset_row at retry stall desc) rows (λ r. refl) (λ r. refl) j

-- `mark_completed` leaves the version: a snapshot that was read before it still passes the test, so a
-- later transition of the old state overwrites COMPLETED, though the table may not allow it.
pub mark_completed_overwritten :
    (clock : ℕ → ℕ) (at : ℕ) (description : Option Text) (node : NodeSnapshot) (to : NodeState)
    (w : World)
    → IsCurrent node w
    → is_valid node.state to ≡ true
    → let v = set_nodes w (mark_completed at node.id description w.nodes) in
      (state_of (select node.id v.nodes) ≡ some completed)
      × (state_of (select node.id (transition_node (quiet clock) to node v).world.nodes) ≡ some to)
unfolding mark_completed
mark_completed_overwritten clock at description node to w c v =
    let completed_world = set_nodes w (mark_completed at node.id description w.nodes) in
    let found =
      select-write_row_self node.id any_row (complete_row at description) w.nodes (λ r. refl)
      ∙ ap (updated any_row (complete_row at description)) c.found in
    let current : IsCurrent node completed_world = record {
      row = complete_row at description c.row;
      found = found;
      same_version = c.same_version;
    } in
    (
      ap state_of found,
      rw (transition_node_alone clock to node completed_world current v)
          (ap state_of (select-moved_world clock to node completed_world current)),
    )
