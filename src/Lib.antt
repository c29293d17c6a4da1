-- ===== src/Lib.antt =====
-- A verification library for the v10 engine: the core that decides which node of a project's DAG is
-- worked on, in which state each node is, and what a change or a failure does to the rest.
--
-- The parts. A project is a DAG of nodes, rows of the table `nodes`. The DAG advancer takes DAG ids
-- from a queue, loads the nodes, sorts them, and moves each along the state machine as its
-- dependencies allow; a node that is launched is worked on by an executor in a task of its own, which
-- reports to the database and queues the DAG again. The cascade marks and invalidates what depends on
-- a changed node. Node operations are the writes of the other parts. The circuit breaker stands before
-- the model providers. All of them meet in the database only, so the model has one world: the tables,
-- the queue, the tasks that were started, and the number of database calls so far. Before each call
-- other tasks may write to the tables; `Env` says what they write, and theorems hold for every `Env`,
-- for those that keep to the protocol of the optimistic lock, or, where they say so, for the quiet one.
--
-- The files, with the code that they model, by its path from the repository's root:
--   Prelude (and below)   shared names: Boolean tests on native numbers, lists, dictionaries, sorting
--   StateMachine          engine/core/state_machine.py: NodeState, VALID_TRANSITIONS, StateMachine
--   Store                 schema_v8.sql: nodes, dags, edges; engine/db/adapter.py: one statement by key
--   Store/World           the process around the tables, and the turns of the other tasks
--   Advancer              engine/core/dag_advancer.py: NodeSnapshot, AdvanceResult
--   Advancer/Topo         topological_sort, an equation per part of Kahn's algorithm
--   Advancer/Transition   DAGAdvancer._transition_node
--   Advancer/Visit        the body of the loop of _advance_dag, _launch_node, _handle_gate
--   Advancer/Advance      DAGAdvancer._advance_dag, _load_nodes, _save_topo_order, _mark_dag_*
--   Advancer/Runner       DAGAdvancer._run_node_safe_inner
--   NodeOps               engine/core/node_ops.py
--   CircuitBreaker        engine/core/circuit_breaker.py over provider_circuit_breakers
--   Cascade (and below)   engine/core/cascade.py
--   Watchdog              engine/lifecycle/watchdog.py; Watchdog/Beside puts it beside the advancer
--   DynamicDag            engine/core/dynamic_dag.py, with the constraints of `edges` in schema_v8.sql
--   Impact                engine/core/impact_analyzer.py
--   StateStore            engine/core/state_store.py over atomic_state of migration 026; against an
--                         abstract store, a function from keys to entries, in StateStore/Refinement
--   Migrations            engine/db/migrations/runner.py; Migrations/Sql reads the files
--   RouteSlug             engine/workspace/route_slug.py
--   AccountRouter         engine/ai/account_router.py
--   ChangeClassifier      engine/ai/change_classifier.py
--   ExecutorCascade       engine/skills/executor_cascade.py: the cascade to a neighbour; its Trigger the
--                         choice of the neighbours, its other modules what comes of it
-- The modules below a part hold its theorems, named for what they are about, and its examples.
--
-- State and operations. A row is a record with the columns that the engine reads or writes; ids and
-- times are numbers, texts are lists of code points. An operation takes the world and returns it with
-- its result. An exception is a value: `Moved.raised`, `Pass.raised`, `none` for the ValueError of the
-- sort and the ConcurrentUpdateError of the breaker.
--
-- Fuel. The sort runs with one round more than there are nodes, and its loop is shown to end with an
-- empty queue (`search_order-Done`); the search of the cascade runs with two rounds more than there are
-- edges, and is shown to end likewise (`explore-Inv`). The loop check of an injection has the twenty hops
-- of the code. The search for distances has as many rounds
-- as there are roots and edges, and ends likewise (`search-Found`). The search for a
-- route's slug has one round more than there are slugs above it, and ends within them. Every other
-- loop follows a list.
--
-- Limits of the model. A spawned executor shares the advancer's NodeSnapshot object and may change it
-- during the pass; the model's pass keeps its own snapshots. Where other tasks are assumed to keep to
-- the protocol of the lock they insert no nodes. A statement of the database fails only for the
-- constraints that an operation's comment names, of `edges` and of the primary keys.
--
-- Not modelled: the database driver and its transactions of several statements, of which the breaker's
-- are taken as one step; the executor of a node, a parameter, of which the cascade after a completion
-- alone is modelled; the rework after a QA verdict; logging; the HTTP server, the templates, code
-- generation, intake, and what else only reads or moves data.
pub mod Prelude
pub mod StateMachine
pub mod AccountRouter
pub mod Migrations
pub mod RouteSlug
pub mod StateStore
pub mod Store
pub mod Advancer
pub mod NodeOps
pub mod ChangeClassifier
pub mod CircuitBreaker
pub mod ExecutorCascade
pub mod Cascade
pub mod Watchdog
pub mod DynamicDag
pub mod Impact
