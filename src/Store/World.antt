-- ===== src/Store/World.antt =====
-- The process around the tables: the database, the advancer's queue and the tasks it has started.
-- A call of the database is an `await`, at which other tasks may run: `Env` says what they write
-- to the tables before the n-th call. The lock of engine/db/adapter.py makes one statement atomic.
use v10_engine.Prelude.{ℕ, suc, ◌<◌, ◌≡◌, ◌⊎◌, Option, none, some, List}
use v10_engine.Store.{NodeRow, DagRow, Edge, select}

pub record Db : Type 0 where
  pub nodes : List NodeRow
  pub dags : List DagRow
  pub edges : List Edge

pub record World : Type 0 where
  pub db : Db
  pub open db use *
  pub awaits : ℕ
  pub queue : List ℕ
  pub spawned : List ℕ

pub record Env : Type 0 where
  pub others : ℕ → Db → Db
  pub clock : ℕ → ℕ

-- No other task writes.
abbrev pub quiet : (ℕ → ℕ) → Env
quiet clock = record { others = λ n db. db; clock = clock }

unfoldable pub yield_to : Env → World → World
yield_to env w = record w { db = env.others w.awaits w.db; awaits = suc w.awaits }

-- datetime.now(timezone.utc)
abbrev pub now : Env → World → ℕ
now env w = env.clock w.awaits

abbrev pub set_nodes : World → List NodeRow → World
set_nodes w rows = record w { db = record w.db { nodes = rows } }

abbrev pub set_dags : World → List DagRow → World
set_dags w rows = record w { db = record w.db { dags = rows } }

-- What the optimistic lock rests on: who changes the state of a row raises its version. No row with a
-- new key comes in: other tasks that inject nodes are left out where a theorem assumes this.
abbrev pub Follows : Option NodeRow → Option NodeRow → Type 0
Follows none none = Unit
Follows none (some _) = ⊥
Follows (some r) none = Unit
Follows (some r) (some r') =
    (r'.version ≡ r.version) × (r'.state ≡ r.state) ⊎ (r.version < r'.version)

-- The other tasks keep to the protocol of the lock.
pub record Respects (env : Env) : Type 0 where
  pub each :
      (n : ℕ) (db : Db) (i : ℕ) → Follows (select i db.nodes) (select i (env.others n db).nodes)
