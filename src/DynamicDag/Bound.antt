-- ===== src/DynamicDag/Bound.antt =====
-- How many nodes engine/core/dynamic_dag.py injects into a DAG.
use v10_engine.Prelude.{ℕ, ◌+◌, ◌≤◌, ◌≡◌, ap, Option, List, [], ◌∷◌, ◌++◌, arith}
use v10_engine.Store.{NodeRow, Edge}
use v10_engine.Store.World.{Db, World, quiet}
use v10_engine.DynamicDag.{
  NodeSpec, Injected, max_injections_per_dag, count_injected_nodes, new_row, new_edges, inject_node,
}
use v10_engine.DynamicDag.Ends.{Outcome, Inserted, refused, half_done, injected}
use v10_engine.DynamicDag.Outcome.{inject_node-Outcome}

count-append :
    (dag : ℕ) (xs ys : List NodeRow)
    → count_injected_nodes dag (xs ++ ys)
      ≡ count_injected_nodes dag xs + count_injected_nodes dag ys
unfolding count_injected_nodes
count-append dag [] ys = omega arith
count-append dag (x ∷ xs) ys = ground (arith, count-append dag xs ys)

count_one : (dag : ℕ) (r : NodeRow) → count_injected_nodes dag (r ∷ []) ≤ 1
unfolding count_injected_nodes
count_one dag r = ground arith

-- However it ends, half-done included, an injection takes no DAG that has at most twenty injected nodes
-- beyond twenty of them, while no other task writes.
pub inject_node_bounded :
    (clock : ℕ → ℕ) (new_id dag parent : ℕ) (spec : NodeSpec) (children : List ℕ)
    (injected_by : Option ℕ) (w : World)
    → count_injected_nodes dag w.nodes ≤ max_injections_per_dag
    → count_injected_nodes dag
        (inject_node (quiet clock) new_id dag parent spec children injected_by w).world.nodes
      ≤ max_injections_per_dag
inject_node_bounded clock new_id dag parent spec children injected_by w low =
    bound (inject_node-Outcome clock new_id dag parent spec children injected_by w)
  where
    low_rows :
        (es : List Edge) (v : World)
        → Inserted new_id dag parent spec children injected_by es w v
        → count_injected_nodes dag v.nodes ≤ max_injections_per_dag
    low_rows es v added =
        let row = new_row new_id dag spec injected_by added.at in
        rw added.nodes_after
          (omega (arith, count-append dag w.nodes (row ∷ []), count_one dag row, added.room))

    bound :
        {r : Injected}
        → Outcome new_id dag parent spec children injected_by w r
        → count_injected_nodes dag r.world.nodes ≤ max_injections_per_dag
    bound (refused e o reason same) = rw (ap (λ (d : Db). d.nodes) same.same_db) low
    bound {r = r} (half_done front next rest o parts met added q) = low_rows front r.world added
    bound {r = r} (injected o added q) =
        low_rows (new_edges dag parent new_id children) r.world added
