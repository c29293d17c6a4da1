-- ===== src/Impact/Search.antt =====
-- `_bfs_distances` of engine/core/impact_analyzer.py.
use v10_engine.Prelude.{
  ℕ, zero, suc, ◌+◌, Option, none, some, List, [], ◌∷◌, ◌++◌, map, leb, ◌==◌, keep, length,
  if◌then◌else◌,
}
use v10_engine.Prelude.Dict.{Dict, get, put}
use v10_engine.Store.{Edge}

abbrev pub max_bfs_depth : ℕ
max_bfs_depth = 10

abbrev pub Queue : Type 0
Queue = List (ℕ × ℕ)

-- adjacency.get(i, [])
unfoldable pub successors : List Edge → ℕ → List ℕ
successors edges i = map (λ e. e.to_node_id) (keep (λ e. e.from_node_id == i) edges)

-- for nid, d in queue: distances[nid] = d, where each d is 0.
unfoldable pub put_roots : List ℕ → Dict ℕ → Dict ℕ
put_roots [] d = d
put_roots (i ∷ is) d = put_roots is (put i 0 d)

abbrev pub reach_one : ℕ → ℕ → Option ℕ → Dict ℕ → Queue → Dict ℕ × Queue
reach_one far i (some seen) d queue = (d, queue)
reach_one far i none d queue = (put i far d, queue ++ (i, far) ∷ [])

-- for neighbor in adjacency.get(cur_id, []): `far` is cur_dist + 1.
unfoldable pub reach_all : ℕ → List ℕ → Dict ℕ → Queue → Dict ℕ × Queue
unfolding get put
reach_all far [] d queue = (d, queue)
reach_all far (i ∷ is) d queue =
    let (d', queue') = reach_one far i (get i d) d queue in reach_all far is d' queue'

-- while i < len(queue): `queue` is what stands from the place i on.
unfoldable pub search : ℕ → List Edge → Dict ℕ → Queue → Dict ℕ
unfolding successors reach_all
search zero edges d queue = d
search (suc fuel) edges d [] = d
search (suc fuel) edges d ((i, near) ∷ queue) =
    let (d', queue') = reach_all (suc near) (successors edges i) d queue in
    if leb max_bfs_depth near then search fuel edges d queue else search fuel edges d' queue'

-- A root enters the queue once, and the target of an edge once more at most.
unfoldable pub bfs_distances : List ℕ → List Edge → Dict ℕ
unfolding put_roots search
bfs_distances roots edges =
    search (length roots + length edges) edges (put_roots roots []) (map (λ i. (i, 0)) roots)
