-- ===== src/Advancer/Advance.antt =====
-- `DAGAdvancer._advance_dag` of engine/core/dag_advancer.py: the pass over one DAG, with
-- `_load_nodes`, `_save_topo_order`, `_mark_dag_completed` and `_mark_dag_corrupted`.
pub mod Allowed
pub mod Discipline
pub mod Limit
pub mod Loaded
use v10_engine.Prelude.{
  ℕ, suc, ◌%◌, Bool, true, false, not, ◌&&◌, ◌||◌, Option, none, some, List, [], ◌∷◌, map, ◌==◌,
  all, keep, length, if◌then◌else◌,
}
use v10_engine.Prelude.Sort.{sorted}
use v10_engine.StateMachine.{InvalidTransitionError, in_progress, state_eq, one_of}
use v10_engine.Store.{
  NodeRow, DagRow, Edge, DagStatus, paused, dag_completed, corrupted, select_dag, write_dag,
}
use v10_engine.Store.World.{World, Env, yield_to, set_dags}
use v10_engine.Advancer.{NodeSnapshot, AdvanceResult}
use v10_engine.Advancer.Topo.{topological_sort}
use v10_engine.Advancer.Visit.{Turn, find_node, deps_states, visit, done, is_gate}

-- deps_map.get(id, []): the sources of the active edges of the DAG into the node, in their order.
unfoldable pub deps_of : ℕ → List Edge → ℕ → List ℕ
deps_of dag edges i =
    map (λ e. e.from_node_id)
      (keep (λ e. e.edge_dag == dag && e.is_active && e.to_node_id == i) edges)

abbrev pub snapshot : ℕ → List Edge → NodeRow → NodeSnapshot
snapshot dag edges r = record {
  id = r.id;
  dag_id = r.dag_id;
  node_type = r.node_type;
  state = r.state;
  priority = r.priority;
  retry_count = r.retry_count;
  max_retries = r.max_retries;
  gate_auto_approve = r.gate_auto_approve;
  version = r.version;
  deps = deps_of dag edges r.id;
}

-- The rows of the table stand in the order of `created_at`, and the sort is stable. The edges are
-- read by a second statement, in `w'`.
unfoldable pub load_nodes : ℕ → World → World → List NodeSnapshot
unfolding sorted deps_of
load_nodes dag w w' =
    map (snapshot dag w'.edges) (sorted (λ r. r.priority) (keep (λ r. r.dag_id == dag) w.nodes))

-- A write to one row of `dags`, after the other tasks had their turn.
unfoldable pub update_dag : Env → ℕ → (DagRow → DagRow) → World → World
unfolding yield_to write_dag
update_dag env dag f w = let w' = yield_to env w in set_dags w' (write_dag dag f w'.dags)

abbrev pub save_topo_order : List ℕ → DagRow → DagRow
save_topo_order order d = record d { topo_order = order }

abbrev pub mark_dag : DagStatus → DagRow → DagRow
mark_dag status d = record d { status = status; dag_version = suc d.dag_version }

-- node_map, whose objects are those of `nodes`: a change of one is seen in both.
unfoldable pub put_node : NodeSnapshot → List NodeSnapshot → List NodeSnapshot
put_node n [] = []
put_node n (m ∷ nodes) = if m.id == n.id then n ∷ nodes else m ∷ put_node n nodes

pub record Pass : Type 0 where
  pub nodes : List NodeSnapshot
  pub world : World
  pub result : AdvanceResult
  pub in_progress_count : ℕ
  pub raised : Option InvalidTransitionError

abbrev pub turn_of : Pass → NodeSnapshot → Turn
turn_of p n = record {
  node = n;
  world = p.world;
  result = p.result;
  in_progress_count = p.in_progress_count;
  raised = none;
}

abbrev pub back : Pass → Turn → Pass
back p t = record {
  nodes = put_node t.node p.nodes;
  world = t.world;
  result = t.result;
  in_progress_count = t.in_progress_count;
  raised = t.raised;
}

unfoldable pub visit_at : Env → ℕ → Pass → Pass
unfolding find_node deps_states visit put_node
visit_at env i p = elim (find_node i p.nodes) [
  | none ↦ p
  | some n ↦ back p (visit env (deps_states p.nodes n.deps) (turn_of p n))
]

-- if _i % 200 == 0 and _i > 0: await asyncio.sleep(0)
abbrev pub breathe : Env → ℕ → Pass → Pass
breathe env k p =
    if k % 200 == 0 && not (k == 0) then record p { world = yield_to env p.world } else p

-- for _i, node_id in enumerate(topo_order)
unfoldable pub visit_all : Env → ℕ → List ℕ → Pass → Pass
unfolding visit_at
visit_all env k [] p = p
visit_all env k (i ∷ order) p =
    let p' = visit_at env i (breathe env k p) in
    elim p'.raised [ none ↦ visit_all env (suc k) order p' | some e ↦ p' ]

unfoldable pub in_progress_of : List NodeSnapshot → ℕ
unfolding state_eq
in_progress_of nodes = length (keep (λ n. state_eq n.state in_progress) nodes)

-- all(n.state in {…} for n in nodes if n.node_type != NodeType.GATE)
unfoldable pub all_done : List NodeSnapshot → Bool
unfolding one_of
all_done nodes = all (λ n. is_gate n.node_type || done n.state) nodes

abbrev pub empty_result : ℕ → AdvanceResult
empty_result dag = record {
  result_dag = dag;
  launched = [];
  blocked = [];
  gate_pending = [];
  completed = false;
}

abbrev pub begin_pass : ℕ → List NodeSnapshot → World → Pass
begin_pass dag nodes w = record {
  nodes = nodes;
  world = w;
  result = empty_result dag;
  in_progress_count = in_progress_of nodes;
  raised = none;
}

-- DAG 완료 여부: the test behind the loop.
unfoldable pub finish_pass : Env → ℕ → Pass → Pass
unfolding all_done
finish_pass env dag p = elim p.raised [
  | some e ↦ p
  | none ↦
      if all_done p.nodes
      then record p {
        result = record p.result { completed = true };
        world = update_dag env dag (mark_dag dag_completed) p.world;
      }
      else p
]

-- From the loaded nodes on.
unfoldable pub advance_loaded : Env → ℕ → List NodeSnapshot → World → Pass
unfolding visit_all finish_pass
advance_loaded env dag nodes w = elim (topological_sort nodes) [
  | none ↦ record (begin_pass dag nodes w) { world = update_dag env dag (mark_dag corrupted) w }
  | some order ↦ finish_pass env dag (
      visit_all env 0 order
        (begin_pass dag nodes (update_dag env dag (save_topo_order order) (yield_to env w))))
]

abbrev pub is_paused : Option DagRow → Bool
is_paused none = true
is_paused (some d) = elim d.status [ paused ↦ true | _ ↦ false ]

-- `_advance_dag`
unfoldable pub advance_dag : Env → ℕ → World → Pass
unfolding load_nodes advance_loaded select_dag yield_to
advance_dag env dag w =
    let w1 = yield_to env w in
    if is_paused (select_dag dag w1.dags)
    then begin_pass dag [] w1
    else let w2 = yield_to env w1 in
      let w3 = yield_to env w2 in
      let nodes = load_nodes dag w2 w3 in
      let w4 = yield_to env w3 in
      elim nodes [ [] ↦ begin_pass dag [] w4 | n ∷ ns ↦ advance_loaded env dag (n ∷ ns) w4 ]
