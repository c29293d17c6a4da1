-- ===== src/ExecutorCascade.antt =====
-- The cascade that follows the completion of a node, engine/skills/executor_cascade.py: what
-- is done to a neighbour of the node, and `Trigger` when.
pub mod Trigger
pub mod Rows
pub mod Resets
pub mod Early
pub mod Loop
pub mod Stop
mod Examples
use v10_engine.Prelude.{
  ℕ, Bool, true, false, ◌&&◌, ◌||◌, not, Option, none, some, List, [], ◌∷◌, ◌++◌, ◌==◌,
  if◌then◌else◌,
}
use v10_engine.StateMachine.{
  NodeState, NodeType, Phase, task, qa, gate, define, design, build, verify, deliver, state_eq,
  one_of, completed, blocked, invalid, not_started, skipped,
}
use v10_engine.Store.{
  NodeRow, Text, ChangeType, contextual, partial_change, select, write_row, write_where,
}
use v10_engine.Store.World.{World, Env, yield_to, now, set_nodes}
use v10_engine.ChangeClassifier.{Classification}
use v10_engine.Cascade.{mark_row, not_pending, phase2_apply_invalid}

unfoldable pub is_type : NodeType → NodeType → Bool
is_type task task = true
is_type qa qa = true
is_type gate gate = true
is_type _ _ = false

unfoldable pub phase_eq : Phase → Phase → Bool
phase_eq define define = true
phase_eq design design = true
phase_eq build build = true
phase_eq verify verify = true
phase_eq deliver deliver = true
phase_eq _ _ = false

-- `column=?`, which a NULL never meets.
abbrev pub column_is : ℕ → Option ℕ → Bool
column_is i none = false
column_is i (some j) = j == i

-- What `classify_change` of engine/ai/change_classifier.py says of a neighbour, by its id and type.
abbrev pub Classify : Type 0
Classify = ℕ → NodeType → Classification

-- One statement on `nodes`.
unfoldable pub statement : Env → (List NodeRow → List NodeRow) → World → World
unfolding yield_to
statement env f w = let w' = yield_to env w in set_nodes w' (f w'.nodes)

-- `sections_json`
abbrev pub sections_json : ChangeType → List Text → List Text
sections_json contextual sections = []
sections_json partial_change sections = sections

abbrev pub is_invalid : NodeRow → Bool
is_invalid r = state_eq r.state invalid

abbrev pub spent_back_row : NodeRow → NodeRow
spent_back_row r = record r { retry_count = 0 }

-- WHERE dag_id=(…) AND node_type='GATE' AND state='COMPLETED' AND phase=(…): the two subqueries
-- read the row of the neighbour before the statement writes.
unfoldable pub is_stale_gate : Option NodeRow → NodeRow → Bool
unfolding is_type state_eq phase_eq
is_stale_gate none r = false
is_stale_gate (some ds) r =
    r.dag_id == ds.dag_id
    && is_type gate r.node_type
    && state_eq r.state completed
    && phase_eq ds.phase r.phase

abbrev pub reopened_gate : ℕ → NodeRow → NodeRow
reopened_gate at r = record r { state = not_started; completed_at = none; updated_at = at }

unfoldable pub reset_gates : ℕ → ℕ → List NodeRow → List NodeRow
unfolding is_stale_gate
reset_gates at ds rows = write_where (is_stale_gate (select ds rows)) (reopened_gate at) rows

-- task_pair_node_id=? OR qa_pair_node_id=?
abbrev pub is_pair_of : ℕ → NodeRow → Bool
is_pair_of ds r = column_is ds r.task_pair_node_id || column_is ds r.qa_pair_node_id

unfoldable pub is_stale_qa : ℕ → NodeRow → Bool
unfolding is_type one_of
is_stale_qa ds r =
    is_pair_of ds r && is_type qa r.node_type && one_of (completed ∷ blocked ∷ []) r.state

abbrev pub reopened_qa : ℕ → NodeRow → NodeRow
reopened_qa at r = record r {
  state = not_started;
  completed_at = none;
  retry_count = 0;
  updated_at = at;
}

-- `_dag_advancer.enqueue`, where there is an advancer.
unfoldable pub enqueue_dag_of : Env → Bool → ℕ → World → World
unfolding yield_to
enqueue_dag_of env has_advancer ds w =
    let w' = yield_to env w in
    elim (select ds w'.nodes) [
      | none ↦ w'
      | some r ↦ if has_advancer then record w' { queue = w'.queue ++ r.dag_id ∷ [] } else w'
    ]

-- The mark, phase 2 and the reset of the retries.
unfoldable pub invalidate_one : Env → (NodeRow → NodeRow) → ℕ → World → World
unfolding statement
invalidate_one env mark ds w =
    let w1 = statement env (write_row ds not_pending mark) w in
    let w2 = (phase2_apply_invalid env false ds w1).1 in
    statement env (write_row ds is_invalid spent_back_row) w2

-- The statements of `_cascade_for_node`, after the classification.
unfoldable pub cascade_classified : Env → Bool → ℕ → ℕ → ChangeType → List Text → World → World
unfolding invalidate_one statement reset_gates is_stale_qa enqueue_dag_of
cascade_classified env has_advancer source ds change_type sections w =
    let at = now env w in
    let mark = mark_row source at change_type (sections_json change_type sections) in
    let w1 = invalidate_one env mark ds w in
    let w2 = statement env (reset_gates at ds) w1 in
    let w3 = statement env (write_where (is_stale_qa ds) (reopened_qa at)) w2 in
    enqueue_dag_of env has_advancer ds w3

-- `_cascade_for_node`; the classification may wait for the model.
unfoldable pub cascade_for_node : Env → Bool → Classify → ℕ → ℕ → NodeType → World → World
unfolding cascade_classified yield_to
cascade_for_node env has_advancer classify source ds node_type w =
    let c = classify ds node_type in
    cascade_classified env has_advancer source ds c.change_type c.affected_sections (yield_to env w)

-- The loops over the neighbours.
unfoldable pub cascade_each : Env → Bool → Classify → ℕ → List NodeRow → World → World
unfolding cascade_for_node
cascade_each env has_advancer classify source [] w = w
cascade_each env has_advancer classify source (r ∷ rows) w =
    cascade_each env has_advancer classify source rows
      (cascade_for_node env has_advancer classify source r.id r.node_type w)

-- The three statements of `_invalidate_early_completed_downstreams`.
abbrev pub is_completed : NodeRow → Bool
is_completed r = state_eq r.state completed

abbrev pub early_row : ℕ → ℕ → NodeRow → NodeRow
early_row source at r = record r {
  state = invalid;
  invalidation_source_id = some source;
  invalidation_change_type = some contextual;
  retry_count = 0;
  updated_at = at;
}

unfoldable pub is_live_pair : ℕ → NodeRow → Bool
unfolding state_eq
is_live_pair ds r = is_pair_of ds r && not (state_eq r.state skipped)

abbrev pub restarted_row : ℕ → NodeRow → NodeRow
restarted_row at r = record r { state = not_started; updated_at = at }

-- The body of the loop, for the neighbour that was read as `ds`.
unfoldable pub invalidate_early : Env → ℕ → ℕ → NodeRow → World → World
unfolding statement is_live_pair is_stale_gate
invalidate_early env source at ds w =
    let w1 = statement env (write_row ds.id is_completed (early_row source at)) w in
    let w2 = statement env (write_where (is_live_pair ds.id) (restarted_row at)) w1 in
    statement env (write_where (is_stale_gate (some ds)) (reopened_gate at)) w2

unfoldable pub invalidate_each : Env → ℕ → ℕ → List NodeRow → World → World
unfolding invalidate_early
invalidate_each env source at [] w = w
invalidate_each env source at (ds ∷ rows) w =
    invalidate_each env source at rows (invalidate_early env source at ds w)
