-- ===== src/ExecutorCascade/Rows.antt =====
-- What `_cascade_for_node` of engine/skills/executor_cascade.py leaves of each row while no other
-- task writes.
use v10_engine.Prelude.{
  ℕ, suc, ◌≡◌, ◌≢◌, refl, ap, ◌∙◌, Bool, false, Option, none, some, List, [], ◌∷◌, arith,
  if◌then◌else◌,
}
use v10_engine.StateMachine.{NodeType, invalid, skipped, state_eq, one_of}
use v10_engine.Store.{NodeRow, Text, ChangeType, select, write_row, write_where}
use v10_engine.Store.Laws.{
  updated, select-write_row_self, select-write_row_other, select-write_where,
}
use v10_engine.Store.World.{World, quiet, yield_to}
use v10_engine.Cascade.{mark_row, not_pending, phase2_apply_invalid}
use v10_engine.Cascade.Phase2.{settled_row, phase2_apply_invalid-Settles}
use v10_engine.Cascade.Batch.{phase2_apply_invalid-other}
use v10_engine.ExecutorCascade.{
  Classify, statement, is_invalid, spent_back_row, is_stale_gate, reopened_gate, reset_gates,
  is_stale_qa, reopened_qa, enqueue_dag_of, invalidate_one, cascade_classified, cascade_for_node,
  sections_json,
}

pub statement-quiet :
    (clock : ℕ → ℕ) (f : List NodeRow → List NodeRow) (w : World)
    → (statement (quiet clock) f w).nodes ≡ f w.nodes
unfolding statement yield_to
statement-quiet clock f w = refl

-- The row after the mark, after phase 2 and after the reset of its retries.
abbrev marked : (NodeRow → NodeRow) → NodeRow → NodeRow
marked mark r = if not_pending r then mark r else r

abbrev retried : NodeRow → NodeRow
retried r = if is_invalid r then spent_back_row r else r

unfoldable pub own_row : (NodeRow → NodeRow) → ℕ → NodeRow → NodeRow
unfolding settled_row
own_row mark at r = retried (settled_row at (marked mark r))

module _ (clock : ℕ → ℕ) (ds : ℕ) (mark : NodeRow → NodeRow)
    (keeps : (r : NodeRow) → (mark r).id ≡ r.id) (w : World) where
  pub invalidate_one-own :
      (r : NodeRow)
      → select ds w.nodes ≡ some r
      → (at : ℕ) × (select ds (invalidate_one (quiet clock) mark ds w).nodes
          ≡ some (own_row mark at r))
  unfolding invalidate_one own_row
  invalidate_one-own r found =
      let env = quiet clock in
      let w1 = statement env (write_row ds not_pending mark) w in
      let e1 : select ds w1.nodes ≡ some (marked mark r) =
        ap (select ds) (statement-quiet clock (write_row ds not_pending mark) w)
        ∙ select-write_row_self ds not_pending mark w.nodes keeps
        ∙ ap (updated not_pending mark) found in
      let (_, (at, e2)) = phase2_apply_invalid-Settles clock false ds w1 (marked mark r) e1 in
      let w2 = (phase2_apply_invalid env false ds w1).1 in
      (
        at,
        ap (select ds) (statement-quiet clock (write_row ds is_invalid spent_back_row) w2)
            ∙ select-write_row_self ds is_invalid spent_back_row w2.nodes (λ x. refl)
            ∙ ap (updated is_invalid spent_back_row) e2,
      )

  pub invalidate_one-other :
      (j : ℕ) → ds ≢ j → select j (invalidate_one (quiet clock) mark ds w).nodes ≡ select j w.nodes
  unfolding invalidate_one
  invalidate_one-other j differ =
      let env = quiet clock in
      let w1 = statement env (write_row ds not_pending mark) w in
      let w2 = (phase2_apply_invalid env false ds w1).1 in
      ap (select j) (statement-quiet clock (write_row ds is_invalid spent_back_row) w2)
      ∙ select-write_row_other ds j is_invalid spent_back_row w2.nodes (λ x. refl) differ
      ∙ phase2_apply_invalid-other clock ds j differ false w1
      ∙ ap (select j) (statement-quiet clock (write_row ds not_pending mark) w)
      ∙ select-write_row_other ds j not_pending mark w.nodes keeps differ

enqueue_dag_of-nodes :
    (clock : ℕ → ℕ) (b : Bool) (ds : ℕ) (w : World)
    → (enqueue_dag_of (quiet clock) b ds w).nodes ≡ w.nodes
unfolding enqueue_dag_of yield_to
enqueue_dag_of-nodes clock b ds w = ground arith

module _ (clock : ℕ → ℕ) (has_advancer : Bool) (source ds : ℕ) (change_type : ChangeType)
    (sections : List Text) (w : World) where
  -- The two resets, on whatever row the invalidation has left.
  pub cascade_classified-row :
      (j : ℕ)
      → let at = clock w.awaits in
        let mark = mark_row source at change_type (sections_json change_type sections) in
        let rows = (invalidate_one (quiet clock) mark ds w).nodes in
        select j
          (cascade_classified (quiet clock) has_advancer source ds change_type sections w).nodes
        ≡ updated
            (is_stale_qa ds)
            (reopened_qa at)
            (updated (is_stale_gate (select ds rows)) (reopened_gate at) (select j rows))
  unfolding cascade_classified reset_gates
  cascade_classified-row j =
      let env = quiet clock in
      let at = clock w.awaits in
      let mark = mark_row source at change_type (sections_json change_type sections) in
      let w1 = invalidate_one env mark ds w in
      let w2 = statement env (reset_gates at ds) w1 in
      let w3 = statement env (write_where (is_stale_qa ds) (reopened_qa at)) w2 in
      ap (select j) (enqueue_dag_of-nodes clock has_advancer ds w3)
      ∙ ap (select j) (statement-quiet clock (write_where (is_stale_qa ds) (reopened_qa at)) w2)
      ∙ select-write_where j (is_stale_qa ds) (reopened_qa at) w2.nodes (λ x. refl)
      ∙ ap (updated (is_stale_qa ds) (reopened_qa at)) (
          ap (select j) (statement-quiet clock (reset_gates at ds) w1)
          ∙ select-write_where j (is_stale_gate (select ds w1.nodes)) (reopened_gate at) w1.nodes
              (λ x. refl))

-- The row of a neighbour that the cascade has taken to INVALID.
pub record Invalidated (source : ℕ) (r r' : NodeRow) : Type 0 where
  pub invalid_now : r'.state ≡ invalid
  pub unmarked : r'.invalidation_pending ≡ false
  pub raised : r'.version ≡ suc r.version
  pub fresh_retries : r'.retry_count ≡ 0
  pub blamed :
      r'.invalidation_source_id
      ≡ (if r.invalidation_pending then r.invalidation_source_id else some source)

own_row-Invalidated :
    (source at at' : ℕ) (change_type : ChangeType) (sections : List Text) (r : NodeRow)
    → one_of (invalid ∷ skipped ∷ []) r.state ≡ false
    → Invalidated source r (own_row (mark_row source at change_type sections) at' r)
unfolding own_row settled_row
own_row-Invalidated source at at' change_type sections r live = record {
  invalid_now = ground arith;
  unmarked = ground arith;
  raised = ground arith;
  fresh_retries = ground arith;
  blamed = ground arith;
}

-- A row that is INVALID is no gate to reopen and no result of a QA to forget.
qa_misses : (ds : ℕ) (r : NodeRow) → r.state ≡ invalid → is_stale_qa ds r ≡ false
unfolding is_stale_qa one_of state_eq
qa_misses ds r h = rw h (ground arith)

gate_misses : (o : Option NodeRow) (r : NodeRow) → r.state ≡ invalid → is_stale_gate o r ≡ false
unfolding is_stale_gate state_eq
gate_misses none r h = refl
gate_misses (some d) r h = rw h (ground arith)

resets_miss :
    (ds at : ℕ) (o : Option NodeRow) (r : NodeRow)
    → r.state ≡ invalid
    → updated
        (is_stale_qa ds)
        (reopened_qa at)
        (updated (is_stale_gate o) (reopened_gate at) (some r))
      ≡ some r
resets_miss ds at o r h = rw (gate_misses o r h) (rw (qa_misses ds r h) refl)

-- The node that is cascaded to, unless it is INVALID or SKIPPED already: it becomes INVALID with its
-- mark gone, its version raised and its retries given back, and it is the changed node that is to
-- blame unless another one was before. No other task writes meanwhile.
pub cascade_for_node-Invalidated :
    (clock : ℕ → ℕ) (has_advancer : Bool) (classify : Classify) (source ds : ℕ)
    (node_type : NodeType) (w : World) (r : NodeRow)
    → select ds w.nodes ≡ some r
    → one_of (invalid ∷ skipped ∷ []) r.state ≡ false
    → (r' : NodeRow) × (select ds
          (cascade_for_node (quiet clock) has_advancer classify source ds node_type w).nodes
        ≡ some r')
      × Invalidated source r r'
unfolding cascade_for_node yield_to
cascade_for_node-Invalidated clock has_advancer classify source ds node_type w r found live =
    let c = classify ds node_type in
    let w0 = record w { awaits = suc w.awaits } in
    let at = clock w0.awaits in
    let sections = sections_json c.change_type c.affected_sections in
    let mark = mark_row source at c.change_type sections in
    let (at', own) = invalidate_one-own clock ds mark (λ x. refl) w0 r found in
    let is_done = own_row-Invalidated source at at' c.change_type sections r live in
    let left = (invalidate_one (quiet clock) mark ds w0).nodes in
    (
      own_row mark at' r,
      cascade_classified-row clock has_advancer source ds c.change_type c.affected_sections w0 ds
          ∙ ap
              (λ o.
                updated (is_stale_qa ds) (reopened_qa at)
                  (updated (is_stale_gate (select ds left)) (reopened_gate at) o))
              own
          ∙ resets_miss ds at (select ds left) (own_row mark at' r) is_done.invalid_now,
      is_done,
    )
