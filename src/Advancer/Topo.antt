-- ===== src/Advancer/Topo.antt =====
-- `topological_sort` of engine/core/dag_advancer.py: Kahn's algorithm over the `deps` of the nodes.
pub mod Count
pub mod Graph
pub mod Roots
pub mod Loop
pub mod Order
pub mod Total
use v10_engine.Prelude.{
  ℕ, zero, suc, Option, none, some, List, [], ◌∷◌, ◌++◌, ltb, ◌==◌, length, if◌then◌else◌,
}
use v10_engine.Prelude.Sort.{sorted}
use v10_engine.Prelude.Int.{ℤ, pos, up, down, is_zero}
use v10_engine.Prelude.Dict.{Dict, get_or, put}
use v10_engine.Advancer.{NodeSnapshot}

abbrev pub Degrees : Type 0
Degrees = Dict ℤ

abbrev pub Successors : Type 0
Successors = Dict (List ℕ)

-- {n.id: 0 for n in nodes}
pub zero_degrees : Degrees → List NodeSnapshot → Degrees
zero_degrees deg [] = deg
zero_degrees deg (n ∷ nodes) = zero_degrees (put n.id (pos 0) deg) nodes

-- for dep_id in node.deps
pub add_deps : ℕ → List ℕ → Successors × Degrees → Successors × Degrees
add_deps i [] (adj, deg) = (adj, deg)
add_deps i (d ∷ deps) (adj, deg) =
    add_deps i deps (put d (get_or d [] adj ++ i ∷ []) adj, put i (up (get_or i (pos 0) deg)) deg)

-- for node in nodes
pub add_nodes : List NodeSnapshot → Successors × Degrees → Successors × Degrees
unfolding add_deps
add_nodes [] g = g
add_nodes (n ∷ nodes) g = add_nodes nodes (add_deps n.id n.deps g)

-- [nid for nid, deg in in_degree.items() if deg == 0]
pub roots : Degrees → List ℕ
roots [] = []
roots ((i, d) ∷ deg) = let rest = roots deg in if is_zero d then i ∷ rest else rest

-- next((n.priority for n in nodes if n.id == nid), 3)
pub priority_of : List NodeSnapshot → ℕ → ℕ
priority_of [] i = 3
priority_of (n ∷ nodes) i = if n.id == i then n.priority else priority_of nodes i

-- for successor in adj[nid]. Every successor is a key of `in_degree`.
pub relax : List ℕ → Degrees → List ℕ → Degrees × List ℕ
relax [] deg queue = (deg, queue)
relax (s ∷ successors) deg queue =
    let d = down (get_or s (pos 0) deg) in
    relax successors (put s d deg) (if is_zero d then queue ++ s ∷ [] else queue)

-- while queue: the order, and what is left in the queue when the fuel is spent.
pub kahn : ℕ → Successors → Degrees → List ℕ → List ℕ → List ℕ × List ℕ
unfolding relax
kahn zero adj deg queue order = (order, queue)
kahn (suc fuel) adj deg [] order = (order, [])
kahn (suc fuel) adj deg (i ∷ queue) order =
    let (deg', queue') = relax (get_or i [] adj) deg queue in
    kahn fuel adj deg' queue' (order ++ i ∷ [])

pub graph : List NodeSnapshot → Successors × Degrees
unfolding zero_degrees add_nodes
graph nodes = add_nodes nodes ([], zero_degrees [] nodes)

-- The run of the loop from the nodes without dependencies. Each node enters the queue once.
pub search_order : List NodeSnapshot → List ℕ × List ℕ
unfolding graph roots priority_of sorted kahn
search_order nodes =
    kahn (suc (length nodes)) (graph nodes).0 (graph nodes).1
      (sorted (priority_of nodes) (roots (graph nodes).1)) []

-- `none` is the ValueError.
unfoldable pub topological_sort : List NodeSnapshot → Option (List ℕ)
unfolding search_order
topological_sort nodes =
    let order = (search_order nodes).0 in if length order == length nodes then some order else none
