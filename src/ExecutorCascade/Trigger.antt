-- ===== src/ExecutorCascade/Trigger.antt =====
-- When the completion of a node cascades, engine/skills/executor_cascade.py: the test of the diff
-- and the choice of the neighbours, downstream and upstream. The contents of the artifact's versions
-- are what the first query returned.
use v10_engine.Prelude.{
  ℕ, Bool, false, not, ◌&&◌, ◌||◌, Option, none, some, List, [], ◌∷◌, keep, any, ltb, ◌==◌,
  if◌then◌else◌,
}
use v10_engine.Prelude.Text.{codes}
use v10_engine.StateMachine.{NodeType, task, qa, gate}
use v10_engine.Store.{NodeRow, Edge, Text, select}
use v10_engine.Store.World.{World, Env, yield_to, now}
use v10_engine.Migrations.Sql.{strip}
use v10_engine.ChangeClassifier.{
  Answer, classify_change, generate_diff, is_changed, is_empty, split_on, tail_of,
}
use v10_engine.ExecutorCascade.{
  Classify, column_is, is_type, is_completed, cascade_each, invalidate_each,
}

-- What the module takes from elsewhere: the Unicode tables, difflib, the model, the column `name`
-- and whether the server has an advancer.
pub record Service : Type 0 where
  pub is_space : ℕ → Bool
  pub lower : Text → Text
  pub upper : Text → Text
  pub unified_diff : List Text → List Text → List Text
  pub call : Text → Option Text
  pub loads : Text → Option Answer
  pub names : ℕ → Text
  pub has_advancer : Bool

abbrev type_text : NodeType → Text
type_text task = codes "TASK"
type_text qa = codes "QA"
type_text gate = codes "GATE"

abbrev pub classifier : Service → Text → Text → Classify
classifier s diff old i node_type =
    classify_change s.is_space s.lower s.upper s.call s.loads diff (s.names i) (type_text node_type)
      old

-- A changed line with more than blanks behind its sign.
unfoldable pub is_meaningful : (ℕ → Bool) → Text → Bool
unfolding is_changed strip
is_meaningful is_space line = is_changed line && not (is_empty (strip is_space (tail_of line)))

-- The diff of two versions, when there is something in it to pass on.
unfoldable pub meaningful_diff : Service → Text → Text → Option Text
unfolding generate_diff split_on is_meaningful
meaningful_diff s old new =
    let diff = generate_diff s.unified_diff old new in
    if is_empty old || is_empty new
    then none
    else if is_empty diff
    then none
    else if any (is_meaningful s.is_space) (split_on 10 diff)
    then some diff
    else none

-- `or ""`
abbrev pub content_of : Option Text → Text
content_of none = []
content_of (some t) = t

abbrev pub found_row : Option NodeRow → List NodeRow → List NodeRow
found_row none rows = rows
found_row (some r) rows = r ∷ rows

-- FROM edges e JOIN nodes n ON n.id = e.to_node_id WHERE e.from_node_id=? AND e.is_active=1
unfoldable pub downstream_rows : ℕ → List Edge → List NodeRow → List NodeRow
downstream_rows i [] rows = []
downstream_rows i (e ∷ edges) rows =
    let rest = downstream_rows i edges rows in
    if e.from_node_id == i && e.is_active then found_row (select e.to_node_id rows) rest else rest

-- … ON n.id = e.from_node_id WHERE e.to_node_id=? AND e.is_active=1
unfoldable pub upstream_rows : ℕ → List Edge → List NodeRow → List NodeRow
upstream_rows i [] rows = []
upstream_rows i (e ∷ edges) rows =
    let rest = upstream_rows i edges rows in
    if e.to_node_id == i && e.is_active then found_row (select e.from_node_id rows) rest else rest

-- n.completed_at < ?
abbrev is_before : ℕ → Option ℕ → Bool
is_before at none = false
is_before at (some t) = ltb t at

abbrev pub is_early : ℕ → NodeRow → Bool
is_early at r = is_completed r && is_before at r.completed_at

-- `_invalidate_early_completed_downstreams`
unfoldable pub invalidate_early_completed_downstreams : Env → ℕ → World → World
unfolding downstream_rows invalidate_each yield_to
invalidate_early_completed_downstreams env i w =
    let at = now env w in
    let w' = yield_to env w in
    invalidate_each env i at (keep (is_early at) (downstream_rows i w'.edges w'.nodes)) w'

abbrev cascade_down : Service → Env → ℕ → Text → Option Text → World → World
cascade_down s env i old none w = w
cascade_down s env i old (some diff) w =
    let w' = yield_to env w in
    cascade_each env s.has_advancer (classifier s diff old) i (downstream_rows i w'.edges w'.nodes)
      w'

-- `_trigger_downstream_cascade`, its background task included.
unfoldable pub trigger_downstream_cascade : Service → Env → ℕ → List (Option Text) → World → World
unfolding meaningful_diff invalidate_early_completed_downstreams cascade_each downstream_rows
    yield_to
trigger_downstream_cascade s env i (newest ∷ before ∷ versions) w =
    cascade_down s env i (content_of before)
      (meaningful_diff s (content_of before) (content_of newest)) (yield_to env w)
trigger_downstream_cascade s env i _ w =
    invalidate_early_completed_downstreams env i (yield_to env w)

abbrev pub source_of : Option NodeRow → Option ℕ
source_of none = none
source_of (some r) = r.invalidation_source_id

-- The nodes above that the loop does not skip, `my_source` being what invalidated the node itself.
unfoldable pub upstream_targets : Option ℕ → List NodeRow → List NodeRow
unfolding is_type
upstream_targets my_source rows =
    keep (λ r. is_completed r && not (column_is r.id my_source) && is_type task r.node_type) rows

-- `AND n.node_type='TASK'`
unfoldable pub upstream_tasks : ℕ → World → List NodeRow
unfolding upstream_rows is_type
upstream_tasks i w = keep (λ r. is_type task r.node_type) (upstream_rows i w.edges w.nodes)

abbrev cascade_up : Service → Env → ℕ → Text → Option Text → World → World
cascade_up s env i old none w = w
cascade_up s env i old (some diff) w =
    let w1 = yield_to env w in
    let rows = upstream_tasks i w1 in
    let w2 = yield_to env w1 in
    cascade_each env s.has_advancer (classifier s diff old) i
      (upstream_targets (source_of (select i w2.nodes)) rows) (elim rows [ [] ↦ w1 | _ ∷ _ ↦ w2 ])

-- `_trigger_upstream_cascade`
unfoldable pub trigger_upstream_cascade : Service → Env → ℕ → List (Option Text) → World → World
unfolding meaningful_diff cascade_each upstream_tasks upstream_targets yield_to
trigger_upstream_cascade s env i (newest ∷ before ∷ versions) w =
    cascade_up s env i (content_of before)
      (meaningful_diff s (content_of before) (content_of newest)) (yield_to env w)
trigger_upstream_cascade s env i _ w = yield_to env w
