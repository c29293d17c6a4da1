-- ===== src/Store.antt =====
-- The rows of the tables `nodes` and `dags` (schema_v8.sql), as far as the engine's statements
-- read and write them, and the statements by primary key that engine/core and engine/lifecycle
-- send through engine/db/adapter.py. Identifiers and times are numbers.
pub mod Laws
pub mod World
pub mod Protocol
use v10_engine.Prelude.{
  ℕ, zero, suc, ◌+◌, Bool, true, false, ◌&&◌, Option, none, some, List, [], ◌∷◌, ◌==◌,
  if◌then◌else◌,
}
use v10_engine.StateMachine.{NodeState, NodeType, Phase}

-- A text is the list of its code points.
abbrev pub Text : Type 0
Text = List ℕ

-- An entry of the JSON list in the column `failure_reasons`.
pub record Failure : Type 0 where
  pub attempt : ℕ
  pub reason : Text
  pub at : ℕ

pub data ChangeType : Type 0 where
  contextual partial_change : ChangeType

pub data FailureClass : Type 0 where
  transient permanent unresolved : FailureClass

pub record NodeRow : Type 0 where
  pub id : ℕ
  pub dag_id : ℕ
  pub node_type : NodeType
  pub state : NodeState
  pub priority : ℕ
  pub retry_count : ℕ
  pub max_retries : ℕ
  pub gate_auto_approve : Bool
  pub version : ℕ
  pub stall_count : ℕ
  pub suspension_reason : Option Text
  pub description : Option Text
  pub failure_reasons : List Failure
  pub failure_class : Option FailureClass
  pub invalidation_pending : Bool
  pub invalidation_source_id : Option ℕ
  pub invalidation_queued_at : Option ℕ
  pub invalidation_change_type : Option ChangeType
  pub invalidation_affected_sections : List Text
  pub completed_at : Option ℕ
  pub updated_at : ℕ
  pub phase : Phase
  pub task_pair_node_id : Option ℕ
  pub qa_pair_node_id : Option ℕ
  pub last_heartbeat : Option ℕ
  pub injected_by : Option ℕ

pub data DagStatus : Type 0 where
  running paused dag_completed corrupted : DagStatus

pub record DagRow : Type 0 where
  pub dag : ℕ
  pub status : DagStatus
  pub topo_order : List ℕ
  pub dag_version : ℕ

pub record Edge : Type 0 where
  pub edge_dag : ℕ
  pub from_node_id : ℕ
  pub to_node_id : ℕ
  pub is_active : Bool

-- SELECT … FROM nodes WHERE id=?
unfoldable pub select : ℕ → List NodeRow → Option NodeRow
select i [] = none
select i (r ∷ rows) = if r.id == i then some r else select i rows

-- UPDATE nodes SET f WHERE id=? AND q: `id` is the primary key, so one row at most is met.
unfoldable pub write_row : ℕ → (NodeRow → Bool) → (NodeRow → NodeRow) → List NodeRow → List NodeRow
write_row i q f [] = []
write_row i q f (r ∷ rows) =
    if r.id == i then (if q r then f r else r) ∷ rows else r ∷ write_row i q f rows

-- UPDATE nodes SET f WHERE q
unfoldable pub write_where : (NodeRow → Bool) → (NodeRow → NodeRow) → List NodeRow → List NodeRow
write_where q f [] = []
write_where q f (r ∷ rows) = (if q r then f r else r) ∷ write_where q f rows

-- The row count that the statement returns.
unfoldable pub rows_affected : ℕ → (NodeRow → Bool) → List NodeRow → ℕ
rows_affected i q [] = 0
rows_affected i q (r ∷ rows) = if r.id == i then (if q r then 1 else 0) else rows_affected i q rows

-- WHERE id=? with no further condition.
abbrev pub any_row : NodeRow → Bool
any_row r = true

-- AND version=?
abbrev pub at_version : ℕ → NodeRow → Bool
at_version v r = r.version == v

-- SELECT … FROM dags WHERE id=?, and the statements on one row of `dags`.
unfoldable pub select_dag : ℕ → List DagRow → Option DagRow
select_dag i [] = none
select_dag i (d ∷ rows) = if d.dag == i then some d else select_dag i rows

unfoldable pub write_dag : ℕ → (DagRow → DagRow) → List DagRow → List DagRow
write_dag i f [] = []
write_dag i f (d ∷ rows) = if d.dag == i then f d ∷ rows else d ∷ write_dag i f rows

abbrev pub state_of : Option NodeRow → Option NodeState
state_of none = none
state_of (some r) = some r.state
