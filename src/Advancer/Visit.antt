-- ===== src/Advancer/Visit.antt =====
-- What one pass of `DAGAdvancer._advance_dag` (engine/core/dag_advancer.py) does with one node: the
-- body of its loop, `_launch_node` and `_handle_gate`.
pub mod Launches
pub mod Sound
use v10_engine.Prelude.{
  ℕ, suc, Bool, true, false, not, ◌&&◌, Option, none, some, List, [], ◌∷◌, ◌++◌, ltb, ◌==◌, all,
  any, if◌then◌else◌,
}
use v10_engine.StateMachine.{
  NodeState, NodeType, InvalidTransitionError, not_started, ready, in_progress, completed, blocked,
  invalid, awaiting_approval, needs_human, suspended, failed, skipped, gate, state_eq, one_of,
}
use v10_engine.Store.World.{World, Env}
use v10_engine.Advancer.{NodeSnapshot, AdvanceResult}
use v10_engine.Advancer.Transition.{transition_node}

abbrev pub max_concurrent_nodes : ℕ
max_concurrent_nodes = 5

-- The node of this round, the world, the result so far, `_in_progress_count`, and the exception
-- that ends the pass.
pub record Turn : Type 0 where
  pub node : NodeSnapshot
  pub world : World
  pub result : AdvanceResult
  pub in_progress_count : ℕ
  pub raised : Option InvalidTransitionError

-- An exception skips what follows.
infixl 5 ◌then_do◌
abbrev pub ◌then_do◌ : Turn → (Turn → Turn) → Turn
t then_do f = elim t.raised [ none ↦ f t | some e ↦ t ]

-- await self._transition_node(node, to)
unfoldable pub move : Env → NodeState → Turn → Turn
move env to t =
    let m = transition_node env to t.node t.world in
    record t { node = m.node; world = m.world; raised = m.raised }

abbrev pub add_launched : Turn → Turn
add_launched t = record t {
  result = record t.result { launched = t.result.launched ++ t.node.id ∷ [] };
  world = record t.world { spawned = t.world.spawned ++ t.node.id ∷ [] };
}

abbrev pub add_blocked : Turn → Turn
add_blocked t = record t {
  result = record t.result { blocked = t.result.blocked ++ t.node.id ∷ [] };
}

abbrev pub add_pending : Turn → Turn
add_pending t = record t {
  result = record t.result { gate_pending = t.result.gate_pending ++ t.node.id ∷ [] };
}

-- `_launch_node`. The task that it starts has the same snapshot object and may change the state and the
-- retries in it while the pass goes on; here the pass keeps its own snapshot.
unfoldable pub launch_node : Env → Turn → Turn
launch_node env t = move env in_progress t then_do add_launched

abbrev pub count_launch : Turn → Turn
count_launch t = record t { in_progress_count = suc t.in_progress_count }

-- Launch while the count is below the limit.
unfoldable pub launch_below : Env → Turn → Turn
unfolding launch_node
launch_below env t =
    if ltb t.in_progress_count max_concurrent_nodes
    then (launch_node env t then_do count_launch)
    else t

-- {NodeState.NOT_STARTED, NodeState.BLOCKED, NodeState.INVALID}
abbrev pub waiting : NodeState → Bool
waiting = one_of (not_started ∷ blocked ∷ invalid ∷ [])

unfoldable pub settle_gate : Env → Turn → Turn
settle_gate env t =
    if not (state_eq t.node.state in_progress)
    then t
    else if t.node.gate_auto_approve
    then move env completed t
    else move env awaiting_approval t then_do add_pending

unfoldable pub start_gate : Env → Turn → Turn
start_gate env t = if state_eq t.node.state ready then move env in_progress t else t

-- `_handle_gate`
unfoldable pub handle_gate : Env → Turn → Turn
unfolding settle_gate start_gate one_of
handle_gate env t =
    if state_eq t.node.state skipped
    then t
    else (if waiting t.node.state then move env ready t else t)
      then_do start_gate env
      then_do settle_gate env

-- _DONE
abbrev pub done : NodeState → Bool
done = one_of (completed ∷ skipped ∷ [])

abbrev pub broken : NodeState → Bool
broken = one_of (failed ∷ needs_human ∷ invalid ∷ [])

-- The states that a pass leaves alone.
abbrev pub settled : NodeState → Bool
settled =
    one_of (in_progress ∷ completed ∷ skipped ∷ awaiting_approval ∷ needs_human ∷ suspended ∷ [])

-- node_map.get(i)
unfoldable pub find_node : ℕ → List NodeSnapshot → Option NodeSnapshot
find_node i [] = none
find_node i (n ∷ nodes) = if n.id == i then some n else find_node i nodes

-- [node_map[d].state for d in deps if d in node_map]
unfoldable pub deps_states : List NodeSnapshot → List ℕ → List NodeState
unfolding find_node
deps_states nodes [] = []
deps_states nodes (d ∷ deps) =
    let rest = deps_states nodes deps in
    elim (find_node d nodes) [ none ↦ rest | some n ↦ n.state ∷ rest ]

-- A FAILED node with retries left.
unfoldable pub visit_failed : Env → List NodeState → Turn → Turn
unfolding launch_node one_of
visit_failed env deps t =
    if ltb t.node.retry_count t.node.max_retries && all done deps
    then (move env ready t then_do launch_node env)
    else t

abbrev pub is_gate : NodeType → Bool
is_gate gate = true
is_gate _ = false

-- All dependencies are done.
unfoldable pub visit_free : Env → Turn → Turn
unfolding handle_gate launch_below one_of
visit_free env t =
    if is_gate t.node.node_type
    then handle_gate env t
    else if state_eq t.node.state ready
    then launch_below env t
    else if waiting t.node.state
    then (move env ready t then_do launch_below env)
    else t

unfoldable pub visit_broken : Env → Turn → Turn
visit_broken env t =
    (if not (state_eq t.node.state blocked) then move env blocked t else t) then_do add_blocked

unfoldable pub visit_pending : Env → Turn → Turn
unfolding one_of
visit_pending env t =
    if one_of (not_started ∷ ready ∷ invalid ∷ []) t.node.state
    then (move env blocked t then_do add_blocked)
    else t

-- The body of the loop, over the states of the node's dependencies.
unfoldable pub visit : Env → List NodeState → Turn → Turn
unfolding visit_failed visit_free visit_broken visit_pending
visit env deps t =
    if settled t.node.state
    then t
    else if state_eq t.node.state failed
    then visit_failed env deps t
    else if any broken deps
    then visit_broken env t
    else if all done deps
    then visit_free env t
    else visit_pending env t
