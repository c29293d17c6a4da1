-- ===== src/Advancer/Runner/Alone.antt =====
-- What `_run_node_safe_inner` (engine/core/dag_advancer.py) leaves of the node's row while no other
-- task writes.
use v10_engine.Prelude.{
  ℕ, suc, ◌≡◌, refl, ◌∙◌, ap, true, false, none, some, [], ◌∷◌, ◌++◌, ltb, arith, if◌then◌else◌,
  Bool-cases, inl, inr,
}
use v10_engine.Prelude.Text.{take}
use v10_engine.StateMachine.{NodeState, in_progress, ready, failed, is_valid}
use v10_engine.Store.{NodeRow, Text, Failure, any_row, select}
use v10_engine.Store.Laws.{updated, select-write_row_self}
use v10_engine.Store.World.{World, quiet, yield_to}
use v10_engine.Advancer.{NodeSnapshot}
use v10_engine.Advancer.Transition.{set_state}
use v10_engine.Advancer.Transition.Alone.{IsCurrent, transition_node_alone, select-moved_world}
use v10_engine.Advancer.Runner.{
  run_node_safe, run_failed, schedule_retry, fail_for_good, record_failure_reason,
  suspend_for_limit, hits_limit, retry_row, suspend_row,
}

module _ (clock : ℕ → ℕ) (error : Text) (node : NodeSnapshot) (w : World)
    (c : IsCurrent node w) where
  abbrev pub entry : Failure
  entry = record {
    attempt = suc node.retry_count;
    reason = take 500 error;
    at = clock (suc w.awaits);
  }

  abbrev pub counted_row : NodeRow
  counted_row =
      retry_row (suc node.retry_count) (c.row.failure_reasons ++ entry ∷ []) (clock (suc w.awaits))
        c.row

  abbrev pub counted_world : World
  counted_world = record_failure_reason (quiet clock) error node w

  abbrev pub counted_node : NodeSnapshot
  counted_node = record node { retry_count = suc node.retry_count }

  counted : IsCurrent counted_node counted_world
  unfolding record_failure_reason yield_to
  counted = record {
    row = counted_row;
    found = select-write_row_self node.id any_row _ w.nodes (λ r. refl) ∙ ground (arith, c.found);
    same_version = c.same_version;
  }

  -- READY while retries are left, FAILED from then on.
  abbrev pub next_state : NodeState
  next_state = if ltb (suc node.retry_count) node.max_retries then ready else failed

  -- The executor's exception on a node in progress, other than that of the API's limit: the row
  -- counts one more retry, holds the reason, and is READY while retries are left and FAILED from
  -- then on; the DAG is queued again, and nothing is raised.
  pub run_failed_row :
      node.state ≡ in_progress
      → hits_limit error ≡ false
      → let m = run_node_safe (quiet clock) (some error) node w in
        (select node.id m.world.nodes
          ≡ some (set_state next_state (clock counted_world.awaits) counted_row))
        × (m.world.queue ≡ w.queue ++ node.dag_id ∷ [])
        × (m.raised ≡ none)
  unfolding run_node_safe run_failed schedule_retry fail_for_good is_valid yield_to counted
  run_failed_row working other =
      rw other (elim (Bool-cases (ltb (suc node.retry_count) node.max_retries)) [
        | inl left ↦
            rw
              (
                left,
                transition_node_alone clock ready counted_node counted_world counted
                    (rw working refl),
              )
              (select-moved_world clock ready counted_node counted_world counted, refl, refl)
        | inr none_left ↦
            rw
              (
                none_left,
                transition_node_alone clock failed counted_node counted_world counted
                    (rw working refl),
              )
              (select-moved_world clock failed counted_node counted_world counted, refl, refl)
      ])

-- The exception of the API's limit suspends the node, and the DAG is not queued again.
pub run_limit_row :
    (clock : ℕ → ℕ) (error : Text) (node : NodeSnapshot) (w : World) {row : NodeRow}
    → hits_limit error ≡ true
    → select node.id w.nodes ≡ some row
    → let m = run_node_safe (quiet clock) (some error) node w in
      (select node.id m.world.nodes ≡ some (suspend_row (clock w.awaits) row))
      × (m.world.queue ≡ w.queue)
unfolding run_node_safe suspend_for_limit yield_to
run_limit_row clock error node w {row} limit found = rw limit (
  select-write_row_self node.id any_row (suspend_row (clock w.awaits)) w.nodes (λ r. refl)
      ∙ ap (updated any_row (suspend_row (clock w.awaits))) found,
  refl,
)
