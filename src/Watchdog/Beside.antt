-- ===== src/Watchdog/Beside.antt =====
-- `_advance_dag` of engine/core/dag_advancer.py beside the watchdog of engine/lifecycle/watchdog.py,
-- which runs a whole round of `run_watchdog` at each of its turns.
use v10_engine.Prelude.{ℕ, Bool, List, []}
use v10_engine.Store.{Failure, select}
use v10_engine.Store.World.{World, Env, Respects, quiet, Db}
use v10_engine.Store.Protocol.{Follows-refl}
use v10_engine.Advancer.{NodeSnapshot}
use v10_engine.Advancer.Advance.{advance_loaded}
use v10_engine.Advancer.Advance.Allowed.{AllCoherent, Reaches, advance_loaded-Reaches}
use v10_engine.Watchdog.Reasons.{Patterns}
use v10_engine.Watchdog.{watchdog_cycle}
use v10_engine.Watchdog.Protocol.{watchdog_cycle-Lawful}

quiet-Respects : (clock : ℕ → ℕ) → Respects (quiet clock)
quiet-Respects clock = record { each = λ n db i. Follows-refl (select i db.nodes) }

abbrev watchdog_world : ℕ → Db → World
watchdog_world n db = record { db = db; awaits = n; queue = []; spawned = [] }

-- The watchdog is the only other task.
abbrev pub beside_watchdog : (ℕ → ℕ) → (ℕ → Bool) → Patterns → (List Failure → ℕ) → Env
beside_watchdog clock alive patterns size = record {
  others = λ n db. (watchdog_cycle (quiet clock) alive patterns size (watchdog_world n db)).db;
  clock = clock;
}

module _ (clock : ℕ → ℕ) (alive : ℕ → Bool) (patterns : Patterns) (size : List Failure → ℕ) where
  beside_watchdog-Respects : Respects (beside_watchdog clock alive patterns size)
  beside_watchdog-Respects = record {
    each = λ n db i.
        (watchdog_cycle-Lawful (quiet clock) alive patterns size (watchdog_world n db)
            (quiet-Respects clock)).at_row
          i;
  }

  -- With a round of the watchdog at each turn, a pass that starts with snapshots of which none is
  -- ahead of its row makes only allowed transitions of the rows as they are when it writes, and leaves
  -- no snapshot ahead of its row.
  pub advance_loaded-beside_watchdog :
      (dag : ℕ) (nodes : List NodeSnapshot) (w : World)
      → AllCoherent nodes w
      → let env = beside_watchdog clock alive patterns size in
        Reaches env w (advance_loaded env dag nodes w)
  advance_loaded-beside_watchdog dag nodes w c =
      advance_loaded-Reaches (beside_watchdog clock alive patterns size) dag nodes w
        beside_watchdog-Respects c
