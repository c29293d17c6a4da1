-- ===== src/NodeOps.antt =====
-- The writes of a node's state outside the advancer, engine/core/node_ops.py. Each is one statement
-- by primary key, and none but `reset_to_ready` raises the version.
pub mod Lock
mod Examples
pub mod Effects
use v10_engine.Prelude.{ℕ, zero, suc, Bool, Option, none, some, List, [], ◌∷◌, if◌then◌else◌}
use v10_engine.Prelude.Text.{take}
use v10_engine.StateMachine.{NodeState, invalid, completed, suspended, failed, ready}
use v10_engine.Store.{NodeRow, Text, FailureClass, any_row, write_row}

abbrev pub given : Option Text → Option Text → Option Text
given none old = old
given (some d) old = some d

-- SET description=? where one is given.
abbrev pub describe : Option Text → NodeRow → NodeRow
describe d r = record r { description = given d r.description }

unfoldable pub mark_invalid_with_stall : ℕ → ℕ → Option Text → List NodeRow → List NodeRow
mark_invalid_with_stall at i description = write_row i any_row (λ r.
    describe description
      (record r { state = invalid; stall_count = suc r.stall_count; updated_at = at }))

abbrev pub complete_row : ℕ → Option Text → NodeRow → NodeRow
complete_row at description r =
    describe description (record r { state = completed; completed_at = some at; updated_at = at })

unfoldable pub mark_completed : ℕ → ℕ → Option Text → List NodeRow → List NodeRow
mark_completed at i description = write_row i any_row (complete_row at description)

unfoldable pub mark_suspended : ℕ → ℕ → Option Text → List NodeRow → List NodeRow
mark_suspended at i verdict =
    write_row i any_row (λ r. describe verdict (record r { state = suspended; updated_at = at }))

abbrev pub clipped : Option Text → Option Text
clipped none = none
clipped (some m) = some (take 1000 m)

-- `classify` is `classify_failure` of engine/core/failure_classifier.py, whose regular expressions
-- are not modelled.
unfoldable pub mark_failed :
    (Option Text → FailureClass) → ℕ → ℕ → Option Text → List NodeRow → List NodeRow
mark_failed classify at i message rows =
    write_row i any_row (λ r. record r { failure_class = some (classify message) })
      (write_row i any_row
        (λ r. describe (clipped message) (record r { state = failed; updated_at = at })) rows)

abbrev pub reset_row : ℕ → Bool → Bool → Bool → NodeRow → NodeRow
reset_row at clear_retry clear_stall clear_description r = record r {
  state = ready;
  updated_at = at;
  version = suc r.version;
  retry_count = if clear_retry then 0 else r.retry_count;
  stall_count = if clear_stall then 0 else r.stall_count;
  description = if clear_description then none else r.description;
}

unfoldable pub reset_to_ready : ℕ → ℕ → Bool → Bool → Bool → List NodeRow → List NodeRow
reset_to_ready at i clear_retry clear_stall clear_description =
    write_row i any_row (reset_row at clear_retry clear_stall clear_description)

-- `a or b`: an empty text counts as none.
abbrev pub text_or : Option Text → Text → Text
text_or none b = b
text_or (some []) b = b
text_or (some (c ∷ a)) b = c ∷ a

unfoldable pub invalidate_task_and_qa : ℕ → ℕ → ℕ → Text → Option Text → List NodeRow → List NodeRow
unfolding mark_invalid_with_stall
invalidate_task_and_qa at task_id qa_id qa_verdict task_verdict rows =
    mark_invalid_with_stall at task_id (some (text_or task_verdict qa_verdict))
      (mark_invalid_with_stall at qa_id (some qa_verdict) rows)
