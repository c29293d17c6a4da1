-- ===== src/Advancer/Transition.antt =====
-- `DAGAdvancer._transition_node` of engine/core/dag_advancer.py: validate, compare and set by
-- version, and up to three attempts where another task wrote first.
pub mod Safety
pub mod Alone
pub mod Frame
use v10_engine.Prelude.{ℕ, zero, suc, ◌+◌, Bool, true, false, Option, none, some, if◌then◌else◌}
use v10_engine.StateMachine.{NodeState, InvalidTransitionError, state_eq, is_valid, transition}
use v10_engine.Store.{NodeRow, at_version, select, write_row, rows_affected}
use v10_engine.Store.World.{World, Env, yield_to, now, set_nodes}
use v10_engine.Advancer.{NodeSnapshot}

-- The node object and the world as the call leaves them, and the exception that it raised, if any.
pub record Moved : Type 0 where
  pub node : NodeSnapshot
  pub world : World
  pub raised : Option InvalidTransitionError

-- SET state=?, updated_at=?, version=version+1
abbrev pub set_state : NodeState → ℕ → NodeRow → NodeRow
set_state to at r = record r { state = to; updated_at = at; version = suc r.version }

abbrev pub sync : NodeSnapshot → NodeRow → NodeSnapshot
sync node fresh = record node { state = fresh.state; version = fresh.version }

abbrev pub returns : NodeSnapshot → World → Moved
returns node w = record { node = node; world = w; raised = none }

-- What follows a conflict, once the row has been read again; `retry` is the next attempt.
after_conflict :
    Env → NodeSnapshot → NodeState → World → Option NodeRow → (NodeSnapshot → World → Moved) → Moved
after_conflict env node to w none retry = returns node w
after_conflict env node to w (some fresh) retry =
    if state_eq fresh.state to
    then returns (sync node fresh) w
    else elim (is_valid fresh.state to) [
      | false ↦ returns (sync node fresh) w
      | true ↦ retry (sync node fresh) (yield_to env w)
    ]

after_execute : Env → NodeSnapshot → NodeState → World → ℕ → (NodeSnapshot → World → Moved) → Moved
unfolding after_conflict
after_execute env node to w (suc _) retry =
    returns (record node { state = to; version = suc node.version }) w
after_execute env node to w zero retry =
    let w' = yield_to env w in after_conflict env node to w' (select node.id w'.nodes) retry

-- The rounds of `for attempt in range(3)` that are left.
attempts : ℕ → Env → NodeState → NodeSnapshot → World → Moved
unfolding after_execute
attempts zero env to node w = returns node w
attempts (suc left) env to node w = elim (transition node.state to node.id) [
  | some e ↦ record { node = node; world = w; raised = some e }
  | none ↦
      let w' = yield_to env w in
      after_execute env node to
        (set_nodes w'
          (write_row node.id (at_version node.version) (set_state to (now env w)) w'.nodes))
        (rows_affected node.id (at_version node.version) w'.nodes) (attempts left env to)
]

unfoldable pub transition_node : Env → NodeState → NodeSnapshot → World → Moved
unfolding attempts
transition_node = attempts 3
