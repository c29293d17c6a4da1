-- ===== src/DynamicDag.antt =====
-- The injection of nodes at run time, engine/core/dynamic_dag.py. The new id (uuid4) is an argument,
-- the database refuses a statement only for a constraint of the tables `nodes` and `edges`, and of a
-- node's specification there are the parts that the engine reads.
pub mod Edges
pub mod Ends
pub mod Outcome
pub mod Bound
pub mod Loops
pub mod Cycle
mod Examples
use v10_engine.Prelude.{
  ℕ, zero, suc, Bool, true, false, not, ◌&&◌, ◌||◌, map, any, Option, none, some, List, [], ◌∷◌,
  ◌++◌, leb, ◌==◌, keep, length, if◌then◌else◌, ◌⊎◌, inl, inr,
}
use v10_engine.StateMachine.{NodeType, Phase, not_started, task}
use v10_engine.Store.{NodeRow, DagRow, Edge, Text, select, select_dag}
use v10_engine.Store.World.{World, Env, yield_to, now, set_nodes}

-- The messages of `InjectionError`.
pub data InjectionError : Type 0 where
  dag_not_found too_many_injections loop_detected : InjectionError
  parent_not_in_dag child_not_in_dag failed_not_in_dag : InjectionError
  node_insert_failed edge_insert_failed : InjectionError

pub record NodeSpec : Type 0 where
  pub node_type : NodeType
  pub phase : Phase
  pub priority : ℕ
  pub max_retries : ℕ
  pub gate_auto_approve : Bool
  pub description : Text

-- The exception, or the id of the new node, and the world that the call leaves.
pub record Injected : Type 0 where
  pub outcome : InjectionError ⊎ ℕ
  pub world : World

abbrev pub fails : InjectionError → World → Injected
fails e w = record { outcome = inl e; world = w }

abbrev pub max_injections_per_dag : ℕ
max_injections_per_dag = 20

abbrev pub max_loop_hops : ℕ
max_loop_hops = 20

abbrev pub is_injected : NodeRow → Bool
is_injected r = elim r.injected_by [ none ↦ false | some by ↦ true ]

-- `_count_injected_nodes`
unfoldable pub count_injected_nodes : ℕ → List NodeRow → ℕ
count_injected_nodes dag rows = length (keep (λ r. r.dag_id == dag && is_injected r) rows)

abbrev pub injector_of : Option NodeRow → Option ℕ
injector_of none = none
injector_of (some r) = r.injected_by

-- `_detects_injection_loop`, with the hops that are left.
unfoldable pub detects_injection_loop : Env → ℕ → ℕ → ℕ → World → Bool × World
detects_injection_loop env zero new_parent current w = (true, w)
detects_injection_loop env (suc hops) new_parent current w =
    if current == new_parent
    then (true, w)
    else let w' = yield_to env w in
      elim (injector_of (select current w'.nodes)) [
        | none ↦ (false, w')
        | some by ↦ detects_injection_loop env hops new_parent by w'
      ]

abbrev pub loop_check : Env → Option ℕ → ℕ → World → Bool × World
loop_check env none new_parent w = (false, w)
loop_check env (some by) new_parent w = detects_injection_loop env max_loop_hops new_parent by w

-- SELECT id FROM nodes WHERE id=? AND dag_id=?
abbrev pub belongs : ℕ → Option NodeRow → Bool
belongs dag none = false
belongs dag (some r) = r.dag_id == dag

unfoldable pub in_dag : ℕ → ℕ → List NodeRow → Bool
in_dag dag i rows = belongs dag (select i rows)

-- for cid in child_node_ids: whether all are nodes of the DAG.
unfoldable pub children_in_dag : Env → ℕ → List ℕ → World → Bool × World
unfolding in_dag
children_in_dag env dag [] w = (true, w)
children_in_dag env dag (c ∷ cs) w =
    let w' = yield_to env w in
    if in_dag dag c w'.nodes then children_in_dag env dag cs w' else (false, w')

abbrev pub new_row : ℕ → ℕ → NodeSpec → Option ℕ → ℕ → NodeRow
new_row new_id dag spec injected_by at = record {
  id = new_id;
  dag_id = dag;
  node_type = spec.node_type;
  state = not_started;
  priority = spec.priority;
  retry_count = 0;
  max_retries = spec.max_retries;
  gate_auto_approve = spec.gate_auto_approve;
  version = 0;
  stall_count = 0;
  suspension_reason = none;
  description = some spec.description;
  failure_reasons = [];
  failure_class = none;
  invalidation_pending = false;
  invalidation_source_id = none;
  invalidation_queued_at = none;
  invalidation_change_type = none;
  invalidation_affected_sections = [];
  completed_at = none;
  updated_at = at;
  phase = spec.phase;
  task_pair_node_id = none;
  qa_pair_node_id = none;
  last_heartbeat = none;
  injected_by = injected_by;
}

abbrev pub active_edge : ℕ → ℕ → ℕ → Edge
active_edge dag i j = record { edge_dag = dag; from_node_id = i; to_node_id = j; is_active = true }

-- UNIQUE(from_node_id, to_node_id) and CHECK(from_node_id != to_node_id) of schema_v8.sql.
unfoldable pub clashes : Edge → List Edge → Bool
clashes e edges =
    e.from_node_id == e.to_node_id
    || any (λ x. x.from_node_id == e.from_node_id && x.to_node_id == e.to_node_id) edges

-- INSERT INTO edges; `false` when it raises.
unfoldable pub insert_edge : Env → Edge → World → Bool × World
unfolding yield_to clashes
insert_edge env e w =
    let w' = yield_to env w in
    if clashes e w'.edges
    then (false, w')
    else (true, record w' { db = record w'.db { edges = w'.edges ++ e ∷ [] } })

-- The statements of the second `try`, up to the first that raises.
unfoldable pub insert_edges : Env → List Edge → World → Bool × World
unfolding insert_edge
insert_edges env [] w = (true, w)
insert_edges env (e ∷ es) w =
    let (stored, w') = insert_edge env e w in if stored then insert_edges env es w' else (false, w')

-- parent → new, then new → each child.
abbrev pub new_edges : ℕ → ℕ → ℕ → List ℕ → List Edge
new_edges dag parent new_id children =
    active_edge dag parent new_id ∷ map (active_edge dag new_id) children

-- INSERT INTO nodes, where `id` is the primary key.
unfoldable pub insert_node : Env → NodeRow → World → Bool × World
unfolding yield_to
insert_node env r w =
    let w' = yield_to env w in
    elim (select r.id w'.nodes) [
      | some old ↦ (false, w')
      | none ↦ (true, set_nodes w' (w'.nodes ++ r ∷ []))
    ]

-- The inserts, and the queueing of the DAG. Each statement is a transaction of its own: a node stays
-- when an edge is refused.
unfoldable pub insert_all : Env → ℕ → ℕ → ℕ → NodeSpec → List ℕ → Option ℕ → World → Injected
unfolding insert_node insert_edges
insert_all env new_id dag parent spec children injected_by w =
    let (stored, w1) = insert_node env (new_row new_id dag spec injected_by (now env w)) w in
    if not stored
    then fails node_insert_failed w1
    else let (joined, w2) = insert_edges env (new_edges dag parent new_id children) w1 in
      if joined
      then record { outcome = inr new_id; world = record w2 { queue = w2.queue ++ dag ∷ [] } }
      else fails edge_insert_failed w2

-- From the check of the parent on.
unfoldable pub inject_below : Env → ℕ → ℕ → ℕ → NodeSpec → List ℕ → Option ℕ → World → Injected
unfolding children_in_dag insert_all
inject_below env new_id dag parent spec children injected_by w =
    let w' = yield_to env w in
    if not (in_dag dag parent w'.nodes)
    then fails parent_not_in_dag w'
    else let (all_there, w'') = children_in_dag env dag children w' in
      if all_there
      then insert_all env new_id dag parent spec children injected_by w''
      else fails child_not_in_dag w''

-- `inject_node`
unfoldable pub inject_node : Env → ℕ → ℕ → ℕ → NodeSpec → List ℕ → Option ℕ → World → Injected
unfolding count_injected_nodes detects_injection_loop inject_below
inject_node env new_id dag parent spec children injected_by w =
    let w1 = yield_to env w in
    elim (select_dag dag w1.dags) [
      | none ↦ fails dag_not_found w1
      | some d ↦
          let w2 = yield_to env w1 in
          if leb max_injections_per_dag (count_injected_nodes dag w2.nodes)
          then fails too_many_injections w2
          else let (looping, w3) = loop_check env injected_by parent w2 in
            if looping
            then fails loop_detected w3
            else inject_below env new_id dag parent spec children injected_by w3
    ]

-- The first source of an active edge of the DAG into the node, LIMIT 1.
unfoldable pub ancestor_of : ℕ → ℕ → List Edge → Option ℕ
ancestor_of dag i [] = none
ancestor_of dag i (e ∷ edges) =
    if e.edge_dag == dag && e.to_node_id == i && e.is_active
    then some e.from_node_id
    else ancestor_of dag i edges

abbrev pub parent_or : ℕ → Option ℕ → ℕ
parent_or failed none = failed
parent_or failed (some i) = i

abbrev pub repair_spec : NodeRow → Text → NodeSpec
repair_spec failed hint = record {
  node_type = task;
  phase = failed.phase;
  priority = 5;
  max_retries = 2;
  gate_auto_approve = false;
  description = hint;
}

-- `inject_repair_node`. The description is an argument as it is composed there.
unfoldable pub inject_repair_node : Env → ℕ → ℕ → ℕ → Text → World → Injected
unfolding inject_node ancestor_of
inject_repair_node env new_id dag failed description w =
    let w1 = yield_to env w in
    elim (select failed w1.nodes) [
      | none ↦ fails failed_not_in_dag w1
      | some r ↦
          if not (r.dag_id == dag)
          then fails failed_not_in_dag w1
          else let w2 = yield_to env w1 in
            inject_node env new_id dag (parent_or failed (ancestor_of dag failed w2.edges))
              (repair_spec r description) (failed ∷ []) (some failed) w2
    ]
