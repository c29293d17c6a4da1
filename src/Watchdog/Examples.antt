-- ===== src/Watchdog/Examples.antt =====
-- Examples for engine/lifecycle/watchdog.py.
use v10_engine.Prelude.{ℕ, true, false, some, List, [], ◌∷◌, length}
use v10_engine.Prelude.Text.{codes, is_infix}
use v10_engine.StateMachine.{suspended}
use v10_engine.Store.{NodeRow, Failure}
use v10_engine.Store.World.{World, Env, Respects}
use v10_engine.NodeOps.{reset_to_ready}
use v10_engine.NodeOps.Lock.{reset_to_ready-Follows}
use v10_engine.Advancer.Samples.{sample_world, sample_db, row_at_state}
use v10_engine.Watchdog.Reasons.{Patterns}
use v10_engine.Watchdog.{watchdog_cycle}
use v10_engine.Watchdog.Protocol.{Lawful, watchdog_cycle-Lawful}

-- Plain searches for one word each.
abbrev patterns : Patterns
patterns = record {
  transient_error = is_infix (codes "timeout");
  permanent_error = is_infix (codes "quota");
  structural_error = is_infix (codes "schema");
}

abbrev size : List Failure → ℕ
size = length

abbrev resetting : Env
resetting = record {
  others = λ n db. record db { nodes = reset_to_ready n 2 true true true db.nodes };
  clock = λ n. n;
}

resetting-Respects : Respects resetting
resetting-Respects = record {
  each = λ n db i. reset_to_ready-Follows n 2 true true true db.nodes i;
}

watchdog_cycle-Lawful_example :
    Lawful sample_world (watchdog_cycle resetting (λ i. false) patterns size sample_world)
watchdog_cycle-Lawful_example =
    watchdog_cycle-Lawful resetting (λ i. false) patterns size sample_world resetting-Respects

abbrev timed_out : NodeRow
timed_out = record (row_at_state 1 suspended) { suspension_reason = some (codes "timeout") }

abbrev suspended_world : World
suspended_world = record sample_world { db = record sample_db { nodes = timed_out ∷ [] } }
