-- ===== src/Impact/Examples.antt =====
-- Examples for engine/core/impact_analyzer.py, on a DAG of three tasks in a row.
use v10_engine.Prelude.{◌↔◌, ◌≤◌, ◌≡◌, some, List, [], ◌∷◌}
use v10_engine.Prelude.Dict.{get}
use v10_engine.StateMachine.{define, not_started, in_progress}
use v10_engine.Store.{NodeRow}
use v10_engine.Store.World.{World}
use v10_engine.Advancer.Samples.{sample_world, sample_db, row_at_state}
use v10_engine.Impact.Search.{bfs_distances, max_bfs_depth}
use v10_engine.Impact.Shortest.{IsDistance, bfs_distances_exact}
use v10_engine.Impact.{Ratio}

abbrev define_row : NodeRow
define_row = record (row_at_state 1 in_progress) { phase = define }

abbrev rows : List NodeRow
rows = define_row ∷ row_at_state 2 not_started ∷ row_at_state 3 not_started ∷ []

abbrev world : World
world = record sample_world { db = record sample_db { nodes = rows } }

abbrev half : Ratio
half = record { changed = 1; total = 2 }

bfs_distances_exact_example :
    (get 3 (bfs_distances (1 ∷ []) sample_world.edges) ≡ some 2)
    ↔ (IsDistance (1 ∷ []) sample_world.edges 3 2 × (2 ≤ max_bfs_depth))
bfs_distances_exact_example = bfs_distances_exact (1 ∷ []) sample_world.edges 3 2
