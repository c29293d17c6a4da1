-- ===== src/Cascade/Downstream.antt =====
-- `_get_downstream_nodes` of engine/core/cascade.py: breadth-first search along the active edges.
use v10_engine.Prelude.{
  ℕ, zero, suc, ◌&&◌, List, [], ◌∷◌, ◌++◌, map, ◌==◌, keep, elem, length, if◌then◌else◌,
}
use v10_engine.Store.{Edge}

-- SELECT to_node_id FROM edges WHERE from_node_id=? AND is_active=1
unfoldable pub children : List Edge → ℕ → List ℕ
children edges i = map (λ e. e.to_node_id) (keep (λ e. e.from_node_id == i && e.is_active) edges)

-- The set `visited`, the queue and the result.
pub record Search : Type 0 where
  pub visited : List ℕ
  pub queue : List ℕ
  pub result : List ℕ

unfoldable pub visit_child : ℕ → Search → Search
visit_child child s = if elem child s.visited then s else record {
  visited = s.visited ++ child ∷ [];
  queue = s.queue ++ child ∷ [];
  result = s.result ++ child ∷ [];
}

-- for r in rows
unfoldable pub visit_children : List ℕ → Search → Search
unfolding visit_child
visit_children [] s = s
visit_children (c ∷ cs) s = visit_children cs (visit_child c s)

unfoldable pub explore_from : (Search → Search) → List Edge → Search → List ℕ → Search
unfolding children visit_children
explore_from rest edges s [] = s
explore_from rest edges s (current ∷ queue) =
    rest (visit_children (children edges current) (record s { queue = queue }))

-- while queue, on fuel: a node enters the queue once, and the first once more.
unfoldable pub explore : ℕ → List Edge → Search → Search
unfolding explore_from
explore zero edges s = s
explore (suc fuel) edges s = explore_from (explore fuel edges) edges s s.queue

abbrev pub start_at : ℕ → Search
start_at i = record { visited = []; queue = i ∷ []; result = [] }

unfoldable pub downstream_nodes : List Edge → ℕ → List ℕ
unfolding explore
downstream_nodes edges i = (explore (suc (suc (length edges))) edges (start_at i)).result
