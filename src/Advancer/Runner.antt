-- ===== src/Advancer/Runner.antt =====
-- `DAGAdvancer._run_node_safe_inner` of engine/core/dag_advancer.py: what follows the run of a
-- node's executor. The executor itself is a parameter: `none` says that it returned, `some` is the
-- text of the exception that it raised. The database answers every statement.
pub mod Alone
use v10_engine.Prelude.{
  ℕ, zero, suc, ◌+◌, Bool, ◌||◌, Option, none, some, List, [], ◌∷◌, ◌++◌, ltb, if◌then◌else◌,
}
use v10_engine.Prelude.Text.{codes, is_infix, take}
use v10_engine.StateMachine.{NodeState, ready, failed, suspended}
use v10_engine.Store.{NodeRow, Text, Failure, any_row, select, write_row}
use v10_engine.Store.World.{World, Env, yield_to, now, set_nodes}
use v10_engine.Advancer.{NodeSnapshot}
use v10_engine.Advancer.Transition.{Moved, transition_node}

-- "hit your limit" in error_str or "You've hit your limit" in error_str
unfoldable pub hits_limit : Text → Bool
unfolding is_infix
hits_limit error =
    is_infix (codes "hit your limit") error || is_infix (codes "You've hit your limit") error

-- The text that the statement writes.
abbrev pub api_limit_reason : Text
api_limit_reason = codes "API 한도 초과 — 자동 재개 대기"

abbrev pub suspend_row : ℕ → NodeRow → NodeRow
suspend_row at r = record r {
  state = suspended;
  suspension_reason = some api_limit_reason;
  updated_at = at;
}

abbrev pub retry_row : ℕ → List Failure → ℕ → NodeRow → NodeRow
retry_row retries reasons at r = record r {
  retry_count = retries;
  failure_reasons = reasons;
  updated_at = at;
}

abbrev pub reasons_of : Option NodeRow → List Failure
reasons_of none = []
reasons_of (some r) = r.failure_reasons

-- await self.enqueue(node.dag_id)
abbrev pub enqueue : Moved → Moved
enqueue m = record m { world = record m.world { queue = m.world.queue ++ m.node.dag_id ∷ [] } }

-- try: … except Exception: …, where the handler goes on from the node and world left behind.
abbrev pub on_error : Moved → (NodeSnapshot → World → Moved) → Moved
on_error m handler = elim m.raised [ none ↦ m | some e ↦ handler m.node m.world ]

-- The wait of the exponential backoff, behind which the DAG is queued again.
abbrev pub wait_and_enqueue : Env → Moved → Moved
wait_and_enqueue env m = elim m.raised [
  | none ↦ enqueue (record m { world = yield_to env m.world })
  | some e ↦ m
]

-- The read of `failure_reasons` and the write of the new count.
unfoldable pub record_failure_reason : Env → Text → NodeSnapshot → World → World
record_failure_reason env error node w =
    let new_retry = suc node.retry_count in
    let w1 = yield_to env w in
    let entry : Failure = record {
      attempt = new_retry;
      reason = take 500 error;
      at = now env w1;
    } in
    let reasons = reasons_of (select node.id w1.nodes) ++ entry ∷ [] in
    let w2 = yield_to env w1 in
    set_nodes w2 (write_row node.id any_row (retry_row new_retry reasons (now env w1)) w2.nodes)

unfoldable pub fail_for_good : Env → NodeSnapshot → World → Moved
fail_for_good env node w =
    let m = transition_node env failed node w in enqueue (record m { raised = none })

unfoldable pub schedule_retry : Env → NodeSnapshot → World → Moved
schedule_retry env node w =
    wait_and_enqueue env (on_error (transition_node env ready node w) (transition_node env failed))

unfoldable pub run_failed : Env → Text → NodeSnapshot → World → Moved
unfolding record_failure_reason fail_for_good schedule_retry
run_failed env error node w =
    let w' = record_failure_reason env error node w in
    let node' = record node { retry_count = suc node.retry_count } in
    if ltb node'.retry_count node'.max_retries
    then schedule_retry env node' w'
    else fail_for_good env node' w'

unfoldable pub suspend_for_limit : Env → NodeSnapshot → World → Moved
suspend_for_limit env node w =
    let w' = yield_to env w in
    record {
      node = node;
      world = set_nodes w' (write_row node.id any_row (suspend_row (now env w)) w'.nodes);
      raised = none;
    }

-- `_run_node_safe_inner`, once the executor has returned or raised.
unfoldable pub run_node_safe : Env → Option Text → NodeSnapshot → World → Moved
unfolding hits_limit suspend_for_limit run_failed
run_node_safe env none node w = enqueue (record { node = node; world = w; raised = none })
run_node_safe env (some error) node w =
    if hits_limit error then suspend_for_limit env node w else run_failed env error node w
