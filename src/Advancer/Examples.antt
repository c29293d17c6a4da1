-- ===== src/Advancer/Examples.antt =====
-- Examples for the advancer of engine/core/dag_advancer.py.
use v10_engine.Prelude.{
  max, ◌≤◌, length, ◌+◌, none, All, ℕ, ◌≡◌, refl, true, some, List, [], ◌∷◌, arith,
}
use v10_engine.Advancer.Runner.{record_failure_reason, run_node_safe, hits_limit}
use v10_engine.Store.World.{yield_to, quiet, Env, Respects}
use v10_engine.Advancer.Topo.Total.{topological_sort_dangling, topological_sort_total}
use v10_engine.StateMachine.{state_eq, ready, in_progress}
use v10_engine.Prelude.Text.{codes, is_infix}
use v10_engine.Advancer.Samples.{row_at_state, sample_world, chain, node_at_state}
use v10_engine.Prelude.Dict.{put, get_or}
use v10_engine.Prelude.Int.{is_zero, up, down}
use v10_engine.Store.{select, any_row}
use v10_engine.NodeOps.{reset_to_ready, reset_row}
use v10_engine.NodeOps.Lock.{reset_to_ready-Follows}
use v10_engine.Advancer.Topo.{topological_sort}
use v10_engine.Advancer.Topo.Count.{ids}
use v10_engine.Advancer.Topo.Order.{IsTopological, topological_sort-IsTopological}
use v10_engine.Advancer.Transition.{set_state}
use v10_engine.Advancer.Transition.Alone.{IsCurrent}
use v10_engine.Advancer.Visit.{max_concurrent_nodes}
use v10_engine.Advancer.Advance.{advance_dag, advance_loaded, in_progress_of}
use v10_engine.Advancer.Advance.Loaded.{KeepsHasKey, write_row-HasKey, advance_dag-Reaches}
use v10_engine.Advancer.Advance.Allowed.{Reaches}
use v10_engine.Advancer.Advance.Discipline.{Behind, advance_dag-Behind}
use v10_engine.Advancer.Advance.Limit.{launches_within_limit}
use v10_engine.Advancer.Runner.Alone.{counted_row, run_failed_row}

-- Another task that resets node 1 to READY at each of its turns.
abbrev resetting : Env
resetting = record {
  others = λ n db. record db { nodes = reset_to_ready n 1 true true true db.nodes };
  clock = λ n. n;
}

resetting-Respects : Respects resetting
resetting-Respects = record {
  each = λ n db i. reset_to_ready-Follows n 1 true true true db.nodes i;
}

resetting-KeepsHasKey : KeepsHasKey resetting
unfolding reset_to_ready
resetting-KeepsHasKey = record {
  each =
      λ n db key. write_row-HasKey 1 any_row (reset_row n true true true) (λ r. refl) db.nodes key;
}

advance_dag-Reaches_example : Reaches resetting sample_world (advance_dag resetting 7 sample_world)
advance_dag-Reaches_example =
    advance_dag-Reaches resetting 7 sample_world resetting-Respects resetting-KeepsHasKey
      (refl, (refl, (refl, tt)))

one-IsCurrent : IsCurrent (node_at_state 1 in_progress []) sample_world
unfolding select
one-IsCurrent = record { row = row_at_state 1 in_progress; found = refl; same_version = refl }

topological_sort-IsTopological_example : IsTopological chain (1 ∷ 2 ∷ 3 ∷ [])
unfolding topological_sort put is_zero up get_or down
topological_sort-IsTopological_example = topological_sort-IsTopological chain refl

topological_sort_total_example : (order : List ℕ) × (topological_sort chain ≡ some order)
unfolding ids
topological_sort_total_example =
    topological_sort_total (λ i. i) chain (refl, (refl, (refl, tt)))
      (
        (λ d m. (ground arith, ground arith)),
        ((λ d m. (ground arith, ground arith)), ((λ d m. (ground arith, ground arith)), tt)),
      )

topological_sort_dangling_example : topological_sort (node_at_state 1 ready (9 ∷ []) ∷ []) ≡ none
unfolding ids
topological_sort_dangling_example =
    topological_sort_dangling [] [] (node_at_state 1 ready (9 ∷ [])) 9 refl refl

advance_dag-Behind_example :
    let p = advance_dag resetting 7 sample_world in All (Behind p.nodes) p.result.launched
advance_dag-Behind_example = advance_dag-Behind resetting 7 sample_world

launches_within_limit_example :
    in_progress_of chain + length (advance_loaded resetting 7 chain sample_world).result.launched
    ≤ max (in_progress_of chain) max_concurrent_nodes
unfolding state_eq
launches_within_limit_example =
    launches_within_limit resetting 7 chain sample_world (refl, (refl, (refl, tt)))

run_failed_row_example :
    let m =
      run_node_safe
        (quiet (λ n. n))
        (some (codes "timeout"))
        (node_at_state 1 in_progress [])
        sample_world in
    (select 1 m.world.nodes
      ≡ some (
          set_state ready 2 (
            counted_row
              (λ n. n)
              (codes "timeout")
              (node_at_state 1 in_progress [])
              sample_world
              one-IsCurrent)))
    × (m.world.queue ≡ 7 ∷ [])
    × (m.raised ≡ none)
unfolding hits_limit is_infix record_failure_reason yield_to
run_failed_row_example =
    run_failed_row (λ n. n) (codes "timeout") (node_at_state 1 in_progress []) sample_world
      one-IsCurrent refl refl
