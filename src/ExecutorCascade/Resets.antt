-- ===== src/ExecutorCascade/Resets.antt =====
-- What `_cascade_for_node` of engine/skills/executor_cascade.py does to the rows beside its node:
-- gates and QA nodes are set back, and the version of a row is not raised for it.
use v10_engine.Prelude.{
  ℕ, suc, ◌≡◌, ◌≢◌, refl, ap, ◌∙◌, ◌==◌, ==_refl, ◌&&◌, ◌||◌, Bool, true, some, none, List, arith,
  if◌then◌else◌,
}
use v10_engine.StateMachine.{
  NodeType, NodeState, qa, gate, completed, blocked, not_started, state_eq, one_of,
}
use v10_engine.Store.{NodeRow, Text, ChangeType, select, rows_affected, at_version}
use v10_engine.Store.Laws.{updated, hits, rows_affected-eq-hits}
use v10_engine.Store.World.{World, quiet, yield_to}
use v10_engine.Cascade.{mark_row}
use v10_engine.Cascade.Phase2.{settled_row}
use v10_engine.ExecutorCascade.{
  Classify, column_is, phase_eq, is_stale_gate, reopened_gate, is_stale_qa, reopened_qa,
  cascade_for_node, sections_json,
}
use v10_engine.ExecutorCascade.Rows.{
  invalidate_one-own, invalidate_one-other, cascade_classified-row, own_row,
}

-- What the cascade to the node `ds`, whose row was `d`, makes of another row, by its type and state.
unfoldable pub bystander_of : NodeType → NodeState → ℕ → ℕ → NodeRow → NodeRow → NodeRow
unfolding phase_eq
bystander_of gate completed at ds d r =
    if r.dag_id == d.dag_id && phase_eq d.phase r.phase
    then record r { state = not_started; completed_at = none; updated_at = at }
    else r
bystander_of qa completed at ds d r =
    if column_is ds r.task_pair_node_id || column_is ds r.qa_pair_node_id
    then record r { state = not_started; completed_at = none; retry_count = 0; updated_at = at }
    else r
bystander_of qa blocked at ds d r =
    if column_is ds r.task_pair_node_id || column_is ds r.qa_pair_node_id
    then record r { state = not_started; completed_at = none; retry_count = 0; updated_at = at }
    else r
bystander_of _ _ at ds d r = r

abbrev pub bystander : ℕ → ℕ → NodeRow → NodeRow → NodeRow
bystander at ds d r = bystander_of r.node_type r.state at ds d r

resets-bystander :
    (ds at : ℕ) (d r : NodeRow)
    → updated
        (is_stale_qa ds)
        (reopened_qa at)
        (updated (is_stale_gate (some d)) (reopened_gate at) (some r))
      ≡ some (bystander at ds d r)
unfolding bystander_of is_stale_gate is_stale_qa one_of state_eq
resets-bystander ds at d r = ground arith

-- Only the place of the node below decides which gates are reopened.
same_place :
    (d d' r : NodeRow)
    → d'.dag_id ≡ d.dag_id
    → d'.phase ≡ d.phase
    → is_stale_gate (some d') r ≡ is_stale_gate (some d) r
unfolding is_stale_gate
same_place d d' r e1 e2 = rw (e1, e2) refl

own_row-place :
    (source at at' : ℕ) (change_type : ChangeType) (sections : List Text) (r : NodeRow)
    → let r' = own_row (mark_row source at change_type sections) at' r in
      (r'.dag_id ≡ r.dag_id) × (r'.phase ≡ r.phase)
unfolding own_row settled_row
own_row-place source at at' change_type sections r = (ground arith, ground arith)

-- The cascade to the node `ds`, seen from another row, while no other task writes: a gate that was
-- COMPLETED in the phase of `ds` is NOT_STARTED again, a QA node of `ds` that was COMPLETED or
-- BLOCKED is too, with its retries given back, and every further row is as it was.
pub cascade_for_node-bystander :
    (clock : ℕ → ℕ) (has_advancer : Bool) (classify : Classify) (source ds j : ℕ)
    (node_type : NodeType) (w : World) (d r : NodeRow)
    → select ds w.nodes ≡ some d
    → select j w.nodes ≡ some r
    → ds ≢ j
    → select j (cascade_for_node (quiet clock) has_advancer classify source ds node_type w).nodes
      ≡ some (bystander (clock (suc w.awaits)) ds d r)
unfolding cascade_for_node yield_to
cascade_for_node-bystander clock has_advancer classify source ds j node_type w d r found there
      differ =
    let c = classify ds node_type in
    let w0 = record w { awaits = suc w.awaits } in
    let at = clock w0.awaits in
    let sections = sections_json c.change_type c.affected_sections in
    let mark = mark_row source at c.change_type sections in
    let (at', own) = invalidate_one-own clock ds mark (λ x. refl) w0 d found in
    let d' = own_row mark at' d in
    let (same_dag, same_phase) = own_row-place source at at' c.change_type sections d in
    let other = invalidate_one-other clock ds mark (λ x. refl) w0 j differ ∙ there in
    let place : is_stale_gate (some d') r ≡ is_stale_gate (some d) r =
      same_place d d' r same_dag same_phase in
    cascade_classified-row clock has_advancer source ds c.change_type c.affected_sections w0 j
    ∙ rw (own, other)
        (ap
          (λ b.
            updated (is_stale_qa ds) (reopened_qa at) (some (if b then reopened_gate at r else r)))
          place)
    ∙ resets-bystander ds at d r

gate_bystander :
    (at ds : ℕ) (d r : NodeRow)
    → r.node_type ≡ gate
    → r.state ≡ completed
    → r.dag_id ≡ d.dag_id
    → phase_eq d.phase r.phase ≡ true
    → ((bystander at ds d r).state ≡ not_started) × ((bystander at ds d r).version ≡ r.version)
unfolding bystander_of
gate_bystander at ds d r is_gate was same_dag same_phase =
    rw (is_gate, was, same_dag, ==_refl d.dag_id, same_phase) (refl, refl)

-- A gate of the phase of `ds` that was COMPLETED, and that the cascade to `ds` sets back: its state
-- is another, but its version is the same, so that the UPDATE of a transition that was planned before
-- the cascade still meets the row. No other task writes meanwhile.
pub cascade_for_node-unnoticed :
    (clock : ℕ → ℕ) (has_advancer : Bool) (classify : Classify) (source ds j : ℕ)
    (node_type : NodeType) (w : World) (d r : NodeRow)
    → select ds w.nodes ≡ some d
    → select j w.nodes ≡ some r
    → ds ≢ j
    → r.node_type ≡ gate
    → r.state ≡ completed
    → r.dag_id ≡ d.dag_id
    → phase_eq d.phase r.phase ≡ true
    → let v = cascade_for_node (quiet clock) has_advancer classify source ds node_type w in
      (r' : NodeRow) × (select j v.nodes ≡ some r')
      × (r'.state ≡ not_started)
      × (r'.version ≡ r.version)
      × (rows_affected j (at_version r.version) v.nodes ≡ 1)
cascade_for_node-unnoticed clock has_advancer classify source ds j node_type w d r found there
      differ is_gate was same_dag same_phase =
    let at = clock (suc w.awaits) in
    let v = cascade_for_node (quiet clock) has_advancer classify source ds node_type w in
    let e =
      cascade_for_node-bystander clock has_advancer classify source ds j node_type w d r found there
        differ in
    let (reopened, kept) = gate_bystander at ds d r is_gate was same_dag same_phase in
    (
      bystander at ds d r,
      e,
      reopened,
      kept,
      rows_affected-eq-hits j (at_version r.version) v.nodes
          ∙ ap (hits (at_version r.version)) e
          ∙ rw (kept, ==_refl r.version) refl,
    )
