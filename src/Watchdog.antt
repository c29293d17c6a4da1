-- ===== src/Watchdog.antt =====
-- The watchdog, engine/lifecycle/watchdog.py: its three recoveries over the table `nodes`. `Reasons`
-- models how it reads the reasons. Times are counted in microseconds.
pub mod Beside
pub mod Reasons
pub mod Protocol
pub mod Stuck
pub mod Resumed
mod Examples
use v10_engine.Prelude.{
  ℕ, zero, suc, ◌-◌, ◌*◌, Bool, true, false, not, ◌&&◌, ◌||◌, Option, none, some, List, [], ◌∷◌,
  ◌++◌, map, ltb, leb, ◌==◌, keep, elem, if◌then◌else◌,
}
use v10_engine.Prelude.Text.{take}
use v10_engine.StateMachine.{
  NodeState, NodeType, not_started, in_progress, completed, suspended, failed, skipped, qa,
  state_eq, one_of,
}
use v10_engine.Store.{NodeRow, Failure, write_row, write_where}
use v10_engine.Store.World.{World, Env, yield_to, now, set_nodes}
use v10_engine.Watchdog.Reasons.{
  Patterns, is_transient_suspension, is_bare_suspension, count_structural_failures,
}

abbrev pub one_minute : ℕ
one_minute = 60000000

abbrev pub is_qa : NodeType → Bool
is_qa qa = true
is_qa _ = false

abbrev pub max_retries_of_stuck : ℕ
max_retries_of_stuck = 3

-- QA_STUCK_THRESHOLD_MINUTES, TASK_STUCK_THRESHOLD_MINUTES
abbrev pub threshold : NodeType → ℕ
threshold t = if is_qa t then 10 * one_minute else 30 * one_minute

-- COALESCE(last_heartbeat, updated_at)
abbrev pub last_sign : NodeRow → ℕ
last_sign r = elim r.last_heartbeat [ none ↦ r.updated_at | some at ↦ at ]

abbrev pub is_stuck : ℕ → NodeRow → Bool
is_stuck at r = not (ltb (at - last_sign r) (threshold r.node_type))

-- AND state = 'IN_PROGRESS'
abbrev pub is_running : NodeRow → Bool
is_running r = state_eq r.state in_progress

abbrev pub give_up_row : ℕ → NodeRow → NodeRow
give_up_row at r = record r { state = failed; updated_at = at; version = suc r.version }

abbrev pub restart_row : ℕ → NodeRow → NodeRow
restart_row at r = record r {
  state = not_started;
  retry_count = suc r.retry_count;
  updated_at = at;
  version = suc r.version;
}

-- AND state NOT IN ('COMPLETED', 'SKIPPED')
abbrev pub is_unfinished : NodeRow → Bool
is_unfinished r = not (one_of (completed ∷ skipped ∷ []) r.state)

abbrev pub refers_to : ℕ → Option ℕ → Bool
refers_to i none = false
refers_to i (some j) = i == j

abbrev pub pairs_with : ℕ → NodeRow → Bool
pairs_with i r =
    (refers_to i r.task_pair_node_id || refers_to i r.qa_pair_node_id) && is_unfinished r

-- The first row that passes the test.
unfoldable pub first_row : (NodeRow → Bool) → List NodeRow → Option NodeRow
first_row p [] = none
first_row p (r ∷ rows) = if p r then some r else first_row p rows

abbrev pub reset_pair_row : ℕ → NodeRow → NodeRow
reset_pair_row at r = record r { state = not_started; updated_at = at; version = suc r.version }

abbrev pub reset_found_pair : Env → ℕ → Option NodeRow → World → World
reset_found_pair env at none w = w
reset_found_pair env at (some pair) w =
    let w' = yield_to env w in
    set_nodes w' (write_row pair.id is_unfinished (reset_pair_row at) w'.nodes)

-- `_reset_pair_node`
unfoldable pub reset_pair_node : Env → ℕ → ℕ → World → World
unfolding first_row one_of
reset_pair_node env at i w =
    let w' = yield_to env w in reset_found_pair env at (first_row (pairs_with i) w'.nodes) w'

-- The body of the loop, for a row as it was read: the ids that were reset, and the world. `alive` is
-- `_check_agent_alive`, which asks the operating system.
unfoldable pub handle_stuck : Env → (ℕ → Bool) → ℕ → NodeRow → List ℕ × World → List ℕ × World
unfolding reset_pair_node state_eq
handle_stuck env alive at r (reset_ids, w) =
    if not (is_stuck at r)
    then (reset_ids, w)
    else let w1 = yield_to env w in
      if alive r.id
      then (reset_ids, w1)
      else let w2 = yield_to env w1 in
        if leb max_retries_of_stuck r.retry_count
        then (reset_ids, set_nodes w2 (write_row r.id is_running (give_up_row at) w2.nodes))
        else (
          reset_ids ++ r.id ∷ [],
          reset_pair_node env at r.id
              (set_nodes w2 (write_row r.id is_running (restart_row at) w2.nodes)),
        )

unfoldable pub handle_all_stuck :
    Env → (ℕ → Bool) → ℕ → List NodeRow → List ℕ × World → List ℕ × World
unfolding handle_stuck
handle_all_stuck env alive at [] s = s
handle_all_stuck env alive at (r ∷ rows) s =
    handle_all_stuck env alive at rows (handle_stuck env alive at r s)

-- SELECT DISTINCT dag_id
unfoldable pub distinct_dags : List ℕ → List NodeRow → List ℕ
distinct_dags seen [] = seen
distinct_dags seen (r ∷ rows) =
    distinct_dags (if elem r.dag_id seen then seen else seen ++ r.dag_id ∷ []) rows

-- `_enqueue_dags_for_nodes`, with an advancer.
unfoldable pub enqueue_dags_for_nodes : Env → List ℕ → World → World
unfolding distinct_dags
enqueue_dags_for_nodes env [] w = w
enqueue_dags_for_nodes env (i ∷ ids) w =
    let w' = yield_to env w in
    let dags = distinct_dags [] (keep (λ r. elem r.id (i ∷ ids)) w'.nodes) in
    record w' { queue = w'.queue ++ dags }

abbrev pub enqueue_reset : Env → List ℕ × World → World
enqueue_reset env (reset_ids, w) = enqueue_dags_for_nodes env reset_ids w

-- `_check_stuck_nodes`
unfoldable pub check_stuck_nodes : Env → (ℕ → Bool) → World → World
unfolding handle_all_stuck enqueue_dags_for_nodes state_eq
check_stuck_nodes env alive w =
    let w' = yield_to env w in
    enqueue_reset env
      (handle_all_stuck env alive (now env w) (take 100 (keep is_running w'.nodes)) ([], w'))

abbrev pub suspended_min_cooldown : ℕ
suspended_min_cooldown = 3 * one_minute

abbrev pub suspended_max_resumes : ℕ
suspended_max_resumes = 3

abbrev pub runaway_bytes : ℕ
runaway_bytes = 6000

abbrev pub is_suspended : NodeRow → Bool
is_suspended r = state_eq r.state suspended

abbrev pub is_failed : NodeRow → Bool
is_failed r = state_eq r.state failed

-- Which rows are resumed. `size` is the length of the JSON text of the column `failure_reasons`.
unfoldable pub resumes_suspended : Patterns → (List Failure → ℕ) → ℕ → NodeRow → Bool
unfolding is_transient_suspension is_bare_suspension
resumes_suspended patterns size at r =
    let bare = is_bare_suspension r.suspension_reason r.failure_reasons in
    (is_transient_suspension patterns r.suspension_reason r.failure_reasons || bare)
    && not (ltb (at - r.updated_at) suspended_min_cooldown)
    && not (ltb runaway_bytes (size r.failure_reasons))
    && not (bare && leb suspended_max_resumes r.retry_count)

unfoldable pub resumes_failed : Patterns → (List Failure → ℕ) → ℕ → NodeRow → Bool
unfolding is_transient_suspension count_structural_failures
resumes_failed patterns size at r =
    is_transient_suspension patterns none r.failure_reasons
    && not (ltb (at - r.updated_at) suspended_min_cooldown)
    && ltb (count_structural_failures patterns r.failure_reasons) 3
    && not (ltb runaway_bytes (size r.failure_reasons))

abbrev pub resumed_row : ℕ → NodeRow → NodeRow
resumed_row at r = record r {
  state = not_started;
  suspension_reason = none;
  stall_count = 0;
  updated_at = at;
  version = suc r.version;
}

-- The update of the chosen ids, where there are any, and the queueing of their DAGs.
abbrev pub resume_all : Env → (NodeRow → Bool) → (NodeRow → NodeRow) → List ℕ → World → World
resume_all env still f [] w = w
resume_all env still f (i ∷ ids) w =
    let w' = yield_to env w in
    enqueue_dags_for_nodes env (i ∷ ids)
      (set_nodes w' (write_where (λ r. elem r.id (i ∷ ids) && still r) f w'.nodes))

-- `_recover_transient_suspended`
unfoldable pub recover_transient_suspended : Env → Patterns → (List Failure → ℕ) → World → World
unfolding resumes_suspended enqueue_dags_for_nodes state_eq
recover_transient_suspended env patterns size w =
    let w' = yield_to env w in
    let at = now env w in
    let rows = take 500 (keep is_suspended w'.nodes) in
    let ids = map (λ r. r.id) (keep (resumes_suspended patterns size at) rows) in
    resume_all env is_suspended (resumed_row at) ids w'

-- `_recover_transient_failed`
unfoldable pub recover_transient_failed : Env → Patterns → (List Failure → ℕ) → World → World
unfolding resumes_failed enqueue_dags_for_nodes state_eq
recover_transient_failed env patterns size w =
    let w' = yield_to env w in
    let at = now env w in
    let rows = take 500 (keep is_failed w'.nodes) in
    let ids = map (λ r. r.id) (keep (resumes_failed patterns size at) rows) in
    resume_all env is_failed (reset_pair_row at) ids w'

-- One round of `run_watchdog`: the three recoveries, and the read of `_detect_suspension_miss`, which
-- writes nothing but the log.
unfoldable pub watchdog_cycle : Env → (ℕ → Bool) → Patterns → (List Failure → ℕ) → World → World
unfolding check_stuck_nodes recover_transient_suspended recover_transient_failed
watchdog_cycle env alive patterns size w =
    let w1 = check_stuck_nodes env alive w in
    let w2 = recover_transient_suspended env patterns size w1 in
    yield_to env (recover_transient_failed env patterns size w2)
