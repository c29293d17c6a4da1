-- ===== src/DynamicDag/Ends.antt =====
-- The ways in which an injection by engine/core/dynamic_dag.py can end.
use v10_engine.Prelude.{
  ℕ, ◌≤◌, ◌<◌, false, ◌≡◌, ◌∙◌, inl, inr, true, Option, none, some, List, [], ◌∷◌, ◌++◌, all,
}
use v10_engine.Store.{NodeRow, Edge, select, select_dag}
use v10_engine.Store.World.{World}
use v10_engine.DynamicDag.{
  InjectionError, dag_not_found, too_many_injections, loop_detected, parent_not_in_dag,
  child_not_in_dag, NodeSpec, Injected, max_injections_per_dag, count_injected_nodes, in_dag,
  new_row, clashes, new_edges, node_insert_failed, edge_insert_failed, failed_not_in_dag,
}

-- The tables and the queue are the same.
pub record Same (w v : World) : Type 0 where
  pub same_db : v.db ≡ w.db
  pub same_queue : v.queue ≡ w.queue

pub Same-trans : {w v u : World} → Same w v → Same v u → Same w u
Same-trans a b = record {
  same_db = b.same_db ∙ a.same_db;
  same_queue = b.same_queue ∙ a.same_queue;
}

-- What an injection adds that inserts its node and the edges `es`.
pub record Inserted (new_id dag parent : ℕ) (spec : NodeSpec) (children : List ℕ)
    (injected_by : Option ℕ) (es : List Edge) (w v : World) : Type 0 where
  pub at : ℕ
  pub nodes_after : v.nodes ≡ w.nodes ++ new_row new_id dag spec injected_by at ∷ []
  pub edges_after : v.edges ≡ w.edges ++ es
  pub room : count_injected_nodes dag w.nodes < max_injections_per_dag
  pub parent_there : in_dag dag parent w.nodes ≡ true
  pub children_there : all (λ c. in_dag dag c w.nodes) children ≡ true
  pub fresh : select new_id w.nodes ≡ none

-- Why a call is refused before it has written anything.
abbrev pub Reason : ℕ → ℕ → ℕ → List ℕ → Option ℕ → World → InjectionError → Type 0
Reason new_id dag parent children injected_by w dag_not_found = select_dag dag w.dags ≡ none
Reason new_id dag parent children injected_by w too_many_injections =
    max_injections_per_dag ≤ count_injected_nodes dag w.nodes
Reason new_id dag parent children injected_by w loop_detected = (by : ℕ) × (injected_by ≡ some by)
Reason new_id dag parent children injected_by w parent_not_in_dag =
    in_dag dag parent w.nodes ≡ false
Reason new_id dag parent children injected_by w child_not_in_dag =
    all (λ c. in_dag dag c w.nodes) children ≡ false
Reason new_id dag parent children injected_by w node_insert_failed =
    (r : NodeRow) × (select new_id w.nodes ≡ some r)
Reason new_id dag parent children injected_by w edge_insert_failed = ⊥
Reason new_id dag parent children injected_by w failed_not_in_dag = ⊥

-- The three ways in which a call ends.
pub data Outcome (new_id dag parent : ℕ) (spec : NodeSpec) (children : List ℕ)
    (injected_by : Option ℕ) (w : World) (r : Injected) : Type 0 where
  refused :
      (e : InjectionError)
      → r.outcome ≡ inl e
      → Reason new_id dag parent children injected_by w e
      → Same w r.world
      → Outcome new_id dag parent spec children injected_by w r
  half_done :
      (front : List Edge) (next : Edge) (rest : List Edge)
      → r.outcome ≡ inl edge_insert_failed
      → new_edges dag parent new_id children ≡ front ++ next ∷ rest
      → clashes next (w.edges ++ front) ≡ true
      → Inserted new_id dag parent spec children injected_by front w r.world
      → r.world.queue ≡ w.queue
      → Outcome new_id dag parent spec children injected_by w r
  injected :
      r.outcome ≡ inr new_id
      → Inserted new_id dag parent spec children injected_by
          (new_edges dag parent new_id children)
          w
          r.world
      → r.world.queue ≡ w.queue ++ dag ∷ []
      → Outcome new_id dag parent spec children injected_by w r
