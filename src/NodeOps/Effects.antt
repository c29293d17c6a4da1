-- ===== src/NodeOps/Effects.antt =====
-- What the writes of engine/core/node_ops.py leave of the table.
use v10_engine.Prelude.{ℕ, suc, ◌≡◌, ◌≢◌, refl, sym, ◌∙◌, ap, Option, some, List}
use v10_engine.StateMachine.{invalid}
use v10_engine.Store.{NodeRow, Text, any_row, select, write_row}
use v10_engine.Store.Laws.{updated, select-write_row_self, select-write_row_other}
use v10_engine.NodeOps.{describe, mark_invalid_with_stall, invalidate_task_and_qa, text_or}

-- The row of a node that is stalled once more.
abbrev pub stalled_row : ℕ → Option Text → NodeRow → NodeRow
stalled_row at description r =
    describe description
      (record r { state = invalid; stall_count = suc r.stall_count; updated_at = at })

module _ (at task_id qa_id : ℕ) (qa_verdict : Text) (task_verdict : Option Text)
    (rows : List NodeRow) (differ : task_id ≢ qa_id) where
  abbrev after : List NodeRow
  after = invalidate_task_and_qa at task_id qa_id qa_verdict task_verdict rows

  -- A rejected task and its QA node are both INVALID with one more stall, the QA node with its
  -- verdict and the task with its own or that of the QA node; no other row changes.
  pub invalidate_task_and_qa_marks :
      {task_row qa_row : NodeRow}
      → select task_id rows ≡ some task_row
      → select qa_id rows ≡ some qa_row
      → (select task_id after
          ≡ some (stalled_row at (some (text_or task_verdict qa_verdict)) task_row))
        × (select qa_id after ≡ some (stalled_row at (some qa_verdict) qa_row))
        × ((j : ℕ) → j ≢ task_id → j ≢ qa_id → select j after ≡ select j rows)
  unfolding invalidate_task_and_qa mark_invalid_with_stall
  invalidate_task_and_qa_marks {task_row} {qa_row} found_task found_qa =
      let f = stalled_row at (some qa_verdict) in
      let g = stalled_row at (some (text_or task_verdict qa_verdict)) in
      let middle = write_row qa_id any_row f rows in
      (
        select-write_row_self task_id any_row g middle (λ r. refl)
            ∙ ap (updated any_row g) (
                select-write_row_other qa_id task_id any_row f rows (λ r. refl)
                  (λ e. differ (sym e))
                ∙ found_task),
        select-write_row_other task_id qa_id any_row g middle (λ r. refl) differ
            ∙ select-write_row_self qa_id any_row f rows (λ r. refl)
            ∙ ap (updated any_row f) found_qa,
        λ j not_task not_qa.
            select-write_row_other task_id j any_row g middle (λ r. refl) (λ e. not_task (sym e))
            ∙ select-write_row_other qa_id j any_row f rows (λ r. refl) (λ e. not_qa (sym e)),
      )
