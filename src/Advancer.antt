-- ===== src/Advancer.antt =====
-- The DAG advancer, engine/core/dag_advancer.py: its data classes. `Topo` models the sort,
-- `Transition` the write of a node's state under the optimistic lock, `Visit` what one pass does with
-- one node, and `Advance` the pass over a DAG.
pub mod Transition
pub mod Topo
pub mod Visit
pub mod Advance
pub mod Runner
pub mod Samples
mod Examples
use v10_engine.Prelude.{ℕ, Bool, List}
use v10_engine.StateMachine.{NodeState, NodeType}

-- The fields that the advancer reads.
pub record NodeSnapshot : Type 0 where
  pub id : ℕ
  pub dag_id : ℕ
  pub node_type : NodeType
  pub state : NodeState
  pub priority : ℕ
  pub retry_count : ℕ
  pub max_retries : ℕ
  pub gate_auto_approve : Bool
  pub version : ℕ
  pub deps : List ℕ

pub record AdvanceResult : Type 0 where
  pub result_dag : ℕ
  pub launched : List ℕ
  pub blocked : List ℕ
  pub gate_pending : List ℕ
  pub completed : Bool
