-- ===== src/Impact.antt =====
-- The analysis of a changed requirement, engine/core/impact_analyzer.py. `Search` models its search
-- for distances; this file its severities and what it marks. The requirement's project is given by a
-- test on DAG ids, the ratio of changed words (`_calculate_change_ratio`) and the number of artifacts
-- of a node are arguments, and the events that it emits are database calls without effect on nodes.
pub mod Search
pub mod Rounds
pub mod Distances
pub mod Shortest
pub mod Scope
mod Examples
use v10_engine.Prelude.{
  ℕ, zero, suc, ◌*◌, Bool, true, false, not, ◌&&◌, ◌||◌, Option, none, some, List, [], ◌∷◌, map,
  leb, ltb, ◌==◌, keep, length, if◌then◌else◌,
}
use v10_engine.Prelude.Dict.{Dict, get_or}
use v10_engine.StateMachine.{Phase, define}
use v10_engine.Store.{NodeRow, Edge, contextual, any_row, write_row}
use v10_engine.Store.World.{World, Env, yield_to, now, set_nodes}
use v10_engine.Impact.Search.{max_bfs_depth, bfs_distances}

pub data ImpactSeverity : Type 0 where
  critical high medium low : ImpactSeverity

-- The fraction changed / total.
pub record Ratio : Type 0 where
  pub changed : ℕ
  pub total : ℕ

-- ratio >= p / q
abbrev pub at_least : ℕ → ℕ → Ratio → Bool
at_least p q ratio = leb (p * ratio.total) (q * ratio.changed)

-- `_calculate_severity`
unfoldable pub calculate_severity : ℕ → Ratio → ℕ → ImpactSeverity
calculate_severity distance ratio artifact_count =
    if distance == 0 && at_least 5 10 ratio
    then critical
    else if leb distance 1 && (at_least 3 10 ratio || ltb 0 artifact_count)
    then high
    else if leb distance 3
    then medium
    else low

pub record ImpactedNode : Type 0 where
  pub impacted_id : ℕ
  pub distance : ℕ
  pub severity : ImpactSeverity
  pub artifact_count : ℕ
  pub should_invalidate : Bool

abbrev pub invalidates : ImpactSeverity → Bool
invalidates critical = true
invalidates high = true
invalidates _ = false

abbrev pub impact_of : ℕ → ℕ → Ratio → ℕ → ImpactedNode
impact_of i distance ratio artifact_count =
    let severity = calculate_severity distance ratio artifact_count in
    record {
      impacted_id = i;
      distance = distance;
      severity = severity;
      artifact_count = artifact_count;
      should_invalidate = invalidates severity;
    }

-- for node_id, node in node_map.items(): 999 stands for a node without a distance.
unfoldable pub evaluate : Dict ℕ → Ratio → (ℕ → ℕ) → List ℕ → List ImpactedNode
unfolding calculate_severity get_or
evaluate distances ratio artifacts [] = []
evaluate distances ratio artifacts (i ∷ is) =
    let rest = evaluate distances ratio artifacts is in
    let distance = get_or i 999 distances in
    if ltb max_bfs_depth distance then rest else impact_of i distance ratio (artifacts i) ∷ rest

unfoldable pub scheduled_ids : List ImpactedNode → List ℕ
scheduled_ids nodes = map (λ n. n.impacted_id) (keep (λ n. n.should_invalidate) nodes)

abbrev pub schedule_row : ℕ → ℕ → NodeRow → NodeRow
schedule_row requirement at r = record r {
  invalidation_pending = true;
  invalidation_source_id = some requirement;
  invalidation_queued_at = some at;
  invalidation_change_type = some contextual;
  invalidation_affected_sections = [];
  updated_at = at;
}

-- `_schedule_cascade`, for each of the nodes.
unfoldable pub schedule_all : Env → ℕ → List ℕ → World → World
schedule_all env requirement [] w = w
schedule_all env requirement (i ∷ is) w =
    let w' = yield_to env w in
    schedule_all env requirement is
      (set_nodes w' (write_row i any_row (schedule_row requirement (now env w)) w'.nodes))

abbrev pub is_define : Phase → Bool
is_define define = true
is_define _ = false

unfoldable pub root_nodes : List NodeRow → List ℕ
root_nodes rows = map (λ r. r.id) (keep (λ r. is_define r.phase) rows)

unfoldable pub project_nodes : (ℕ → Bool) → List NodeRow → List NodeRow
project_nodes in_project rows = keep (λ r. in_project r.dag_id) rows

unfoldable pub project_edges : (ℕ → Bool) → List Edge → List Edge
project_edges in_project edges = keep (λ e. in_project e.edge_dag && e.is_active) edges

unfoldable pub severity_eq : ImpactSeverity → ImpactSeverity → Bool
severity_eq critical critical = true
severity_eq high high = true
severity_eq medium medium = true
severity_eq low low = true
severity_eq _ _ = false

-- result.total_critical += 1, and so on.
unfoldable pub total_of : ImpactSeverity → List ImpactedNode → ℕ
unfolding severity_eq
total_of severity nodes = length (keep (λ n. severity_eq severity n.severity) nodes)

pub record Analysis : Type 0 where
  pub impacted : List ImpactedNode
  pub total_critical : ℕ
  pub total_high : ℕ
  pub total_medium : ℕ
  pub total_low : ℕ
  pub invalidation_scheduled : ℕ
  pub world : World

abbrev pub no_impact : World → Analysis
no_impact w = record {
  impacted = [];
  total_critical = 0;
  total_high = 0;
  total_medium = 0;
  total_low = 0;
  invalidation_scheduled = 0;
  world = w;
}

-- The impact on the nodes of a project, from its rows and edges.
unfoldable pub impacts : Ratio → (ℕ → ℕ) → List NodeRow → List Edge → List ImpactedNode
unfolding evaluate root_nodes bfs_distances
impacts ratio artifacts rows edges =
    evaluate (bfs_distances (root_nodes rows) edges) ratio artifacts (map (λ r. r.id) rows)

-- `analyze`: the argument for the requirement's project is `none` where there is no such requirement.
unfoldable pub analyze : Env → ℕ → Option (ℕ → Bool) → Ratio → (ℕ → ℕ) → World → Analysis
unfolding impacts scheduled_ids total_of schedule_all project_nodes project_edges
analyze env requirement none ratio artifacts w = no_impact (yield_to env (yield_to env w))
analyze env requirement (some in_project) ratio artifacts w =
    let w3 = yield_to env (yield_to env (yield_to env w)) in
    let w4 = yield_to env w3 in
    let impacted =
      impacts ratio artifacts (project_nodes in_project w3.nodes)
        (project_edges in_project w4.edges) in
    let is = scheduled_ids impacted in
    record {
      impacted = impacted;
      total_critical = total_of critical impacted;
      total_high = total_of high impacted;
      total_medium = total_of medium impacted;
      total_low = total_of low impacted;
      invalidation_scheduled = length is;
      world = yield_to env (schedule_all env requirement is (yield_to env (yield_to env w4)));
    }
