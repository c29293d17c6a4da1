-- ===== src/Impact/Scope.antt =====
-- Which nodes the analysis of engine/core/impact_analyzer.py marks.
use v10_engine.Prelude.{
  ℕ, ◌≤◌, ◌≡◌, refl, ◌∙◌, Bool, true, false, Option, some, List, [], ◌∷◌, map, arith, ltb, elem,
  ◌==◌, Bool-cases, inl, inr,
}
use v10_engine.Prelude.Dict.{Dict, get, get_or}
use v10_engine.Store.{NodeRow, Edge, any_row, select, write_row}
use v10_engine.Store.Laws.{select-write_row}
use v10_engine.Store.World.{World, quiet, yield_to, set_nodes}
use v10_engine.Impact.Search.{max_bfs_depth, bfs_distances}
use v10_engine.Impact.Shortest.{IsDistance, bfs_distances_exact}
use v10_engine.Impact.{
  Ratio, calculate_severity, invalidates, evaluate, scheduled_ids, schedule_row, schedule_all,
  root_nodes, impacts, analyze,
}

-- CRITICAL and HIGH reach no farther than one edge.
near_of_invalidates :
    (n : ℕ) (ratio : Ratio) (k : ℕ) → invalidates (calculate_severity n ratio k) ≡ true → n ≤ 1
unfolding calculate_severity
near_of_invalidates n ratio k h = ground arith

get_of_near : (i : ℕ) (d : Dict ℕ) → get_or i 999 d ≤ 1 → get i d ≡ some (get_or i 999 d)
unfolding get get_or
get_of_near i [] h = absurd (omega arith)
get_of_near i ((j, n) ∷ d) h = ground (arith, get_of_near i d)

evaluate_near :
    (d : Dict ℕ) (ratio : Ratio) (artifacts : ℕ → ℕ) (is : List ℕ) (j : ℕ)
    → elem j (scheduled_ids (evaluate d ratio artifacts is)) ≡ true
    → (n : ℕ) × (n ≤ 1) × (get j d ≡ some n)
unfolding evaluate scheduled_ids
evaluate_near d ratio artifacts [] j h = absurd (ground arith)
evaluate_near d ratio artifacts (i ∷ is) j h =
    elim (Bool-cases (ltb max_bfs_depth (get_or i 999 d))) [
      | inl far ↦ evaluate_near d ratio artifacts is j (rw far at h)
      | inr within ↦
          elim (Bool-cases
            (invalidates (calculate_severity (get_or i 999 d) ratio (artifacts i)))) [
              | inr spared ↦ evaluate_near d ratio artifacts is j (rw (within, spared) at h)
              | inl due ↦ elim (Bool-cases (i == j)) [
                | inl same ↦
                    let k : i ≡ j = ground arith in
                    let near = near_of_invalidates (get_or i 999 d) ratio (artifacts i) due in
                    rw (← k) (get_or i 999 d, near, get_of_near i d near)
                | inr other ↦
                    evaluate_near d ratio artifacts is j
                      (let z = rw (within, due) at h in ground arith)
              ]
            ]
    ]

-- A node that the analysis schedules for invalidation is a node of the phase DEFINE or one edge away
-- from such a node, and no farther.
pub scheduled_near :
    (ratio : Ratio) (artifacts : ℕ → ℕ) (rows : List NodeRow) (edges : List Edge) (j : ℕ)
    → elem j (scheduled_ids (impacts ratio artifacts rows edges)) ≡ true
    → (n : ℕ) × (n ≤ 1) × IsDistance (root_nodes rows) edges j n
unfolding impacts
scheduled_near ratio artifacts rows edges j h =
    let (n, near, found) =
      evaluate_near (bfs_distances (root_nodes rows) edges) ratio artifacts (map (λ r. r.id) rows) j
        h in
    (n, near, ((bfs_distances_exact (root_nodes rows) edges j n).0 found).0)

-- The row as a scheduling leaves it, or as it was.
abbrev pub Scheduled : ℕ → Bool → NodeRow → Option NodeRow → Type 0
Scheduled requirement true r o = (at : ℕ) × (o ≡ some (schedule_row requirement at r))
Scheduled requirement false r o = o ≡ some r

module _ (clock : ℕ → ℕ) (requirement : ℕ) where
  still-Scheduled :
      (is : List ℕ) (w : World) (j at : ℕ) (r : NodeRow)
      → select j w.nodes ≡ some (schedule_row requirement at r)
      → Scheduled requirement true r (select j (schedule_all (quiet clock) requirement is w).nodes)
  unfolding schedule_all yield_to
  still-Scheduled [] w j at r e = (at, e)
  still-Scheduled (i ∷ is) w j at r e =
      let f = schedule_row requirement (clock w.awaits) in
      let v = set_nodes (yield_to (quiet clock) w) (write_row i any_row f w.nodes) in
      let row = select-write_row i j any_row f w.nodes (λ x. refl) in
      elim (Bool-cases (i == j)) [
        | inl same ↦
            let k : i ≡ j = ground arith in
            still-Scheduled is v j (clock w.awaits) r (row ∙ rw (same, k, e) refl)
        | inr other ↦ still-Scheduled is v j at r (row ∙ rw other e)
      ]

  schedule_all_row :
      (is : List ℕ) (w : World) (j : ℕ) (r : NodeRow)
      → select j w.nodes ≡ some r
      → Scheduled requirement
          (elem j is)
          r
          (select j (schedule_all (quiet clock) requirement is w).nodes)
  unfolding schedule_all yield_to
  schedule_all_row [] w j r e = e
  schedule_all_row (i ∷ is) w j r e =
      let f = schedule_row requirement (clock w.awaits) in
      let v = set_nodes (yield_to (quiet clock) w) (write_row i any_row f w.nodes) in
      let row = select-write_row i j any_row f w.nodes (λ x. refl) in
      elim (Bool-cases (i == j)) [
        | inl same ↦
            let k : i ≡ j = ground arith in
            rw same (still-Scheduled is v j (clock w.awaits) r (row ∙ rw (same, k, e) refl))
        | inr other ↦ rw other (schedule_all_row is v j r (row ∙ rw other e))
      ]

-- While no other task writes, the analysis of a requirement marks just the nodes that it schedules as
-- pending, and leaves every other row as it is.
pub analyze_marks :
    (clock : ℕ → ℕ) (requirement : ℕ) (in_project : ℕ → Bool) (ratio : Ratio) (artifacts : ℕ → ℕ)
    (w : World) (j : ℕ) (r : NodeRow)
    → select j w.nodes ≡ some r
    → let a = analyze (quiet clock) requirement (some in_project) ratio artifacts w in
      Scheduled requirement (elem j (scheduled_ids a.impacted)) r (select j a.world.nodes)
unfolding analyze yield_to
analyze_marks clock requirement in_project ratio artifacts w j r found =
    schedule_all_row clock requirement _ _ j r found
