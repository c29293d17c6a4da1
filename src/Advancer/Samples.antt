-- ===== src/Advancer/Samples.antt =====
-- A small DAG for the examples of the modules about engine/core: three tasks in a row, the first
-- of them in progress.
use v10_engine.Prelude.{ℕ, true, false, none, List, [], ◌∷◌}
use v10_engine.StateMachine.{build, NodeState, task, in_progress, not_started, ready}
use v10_engine.Store.{NodeRow, Edge, running}
use v10_engine.Store.World.{Db, World}
use v10_engine.Advancer.{NodeSnapshot}

abbrev pub row_at_state : ℕ → NodeState → NodeRow
row_at_state i state = record {
  id = i;
  dag_id = 7;
  node_type = task;
  state = state;
  priority = 3;
  retry_count = 0;
  max_retries = 3;
  gate_auto_approve = false;
  version = 4;
  stall_count = 0;
  suspension_reason = none;
  description = none;
  failure_reasons = [];
  failure_class = none;
  invalidation_pending = false;
  invalidation_source_id = none;
  invalidation_queued_at = none;
  invalidation_change_type = none;
  invalidation_affected_sections = [];
  completed_at = none;
  updated_at = 0;
  phase = build;
  task_pair_node_id = none;
  qa_pair_node_id = none;
  last_heartbeat = none;
  injected_by = none;
}

abbrev pub node_at_state : ℕ → NodeState → List ℕ → NodeSnapshot
node_at_state i state deps = record {
  id = i;
  dag_id = 7;
  node_type = task;
  state = state;
  priority = 3;
  retry_count = 0;
  max_retries = 3;
  gate_auto_approve = false;
  version = 4;
  deps = deps;
}

abbrev pub edge_between : ℕ → ℕ → Edge
edge_between i j = record { edge_dag = 7; from_node_id = i; to_node_id = j; is_active = true }

abbrev pub sample_db : Db
sample_db = record {
  nodes = row_at_state 1 in_progress ∷ row_at_state 2 not_started ∷ row_at_state 3 not_started ∷ [];
  dags = record { dag = 7; status = running; topo_order = []; dag_version = 1 } ∷ [];
  edges = edge_between 1 2 ∷ edge_between 2 3 ∷ [];
}

abbrev pub sample_world : World
sample_world = record { db = sample_db; awaits = 0; queue = []; spawned = [] }

-- The same nodes, given out of order.
abbrev pub chain : List NodeSnapshot
chain =
    node_at_state 3 ready (2 ∷ []) ∷ node_at_state 1 ready [] ∷ node_at_state 2 ready (1 ∷ []) ∷ []
