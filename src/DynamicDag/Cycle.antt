-- ===== src/DynamicDag/Cycle.antt =====
-- Injections by engine/core/dynamic_dag.py that close a cycle.
use v10_engine.Prelude.{
  ℕ, Bool, not, ◌&&◌, false, some, none, all, ap, append-nil, append_assoc, ◌<◌, ◌≡◌, refl, ◌∙◌,
  sym, true, List, [], ◌∷◌, ◌++◌, map, arith, elem, ◌||◌, ==_refl, inr,
}
use v10_engine.Store.{Edge, DagRow, select, select_dag}
use v10_engine.Store.World.{World, quiet}
use v10_engine.Cascade.Downstream.{children}
use v10_engine.Cascade.Reach.{Reaches, edge, beyond}
use v10_engine.DynamicDag.{
  clashes, new_edges, in_dag, count_injected_nodes, max_injections_per_dag, InjectionError,
  dag_not_found, too_many_injections, loop_detected, parent_not_in_dag, child_not_in_dag,
  failed_not_in_dag, node_insert_failed, edge_insert_failed, NodeSpec, Injected, active_edge,
  inject_node,
}
use v10_engine.DynamicDag.Ends.{Outcome, Reason, refused, half_done, injected}
use v10_engine.DynamicDag.Outcome.{inject_node-Outcome}

children-append :
    (xs ys : List Edge) (i : ℕ) (a : ℕ)
    → elem a (children (xs ++ ys) i) ≡ (elem a (children xs i) || elem a (children ys i))
unfolding children
children-append [] ys i a = refl
children-append (x ∷ xs) ys i a = ground (arith, children-append xs ys i a)

Reaches-append : (xs ys : List Edge) (i a : ℕ) → Reaches xs i a → Reaches (xs ++ ys) i a
Reaches-append xs ys i _ (edge a m) = edge a (children-append xs ys i a ∙ ground (arith, m))
Reaches-append xs ys i _ (beyond {a = a} b r m) =
    beyond b (Reaches-append xs ys i a r) (children-append xs ys a b ∙ ground (arith, m))

Reaches-trans : (es : List Edge) (i a b : ℕ) → Reaches es i a → Reaches es a b → Reaches es i b
Reaches-trans es i a _ p (edge b m) = beyond b p m
Reaches-trans es i a _ p (beyond b q m) = beyond b (Reaches-trans es i a _ p q) m

child_edge :
    (dag new_id : ℕ) (cs : List ℕ) (c : ℕ)
    → elem c cs ≡ true
    → elem c (children (map (active_edge dag new_id) cs) new_id) ≡ true
unfolding children
child_edge dag new_id [] c m = ground arith
child_edge dag new_id (x ∷ cs) c m = ground (arith, child_edge dag new_id cs c, ==_refl new_id)

module _ (edges : List Edge) (dag parent new_id : ℕ) (cs : List ℕ) where
  more_edges : List Edge
  more_edges = edges ++ active_edge dag parent new_id ∷ map (active_edge dag new_id) cs

  to_child : (c : ℕ) → elem c cs ≡ true → Reaches more_edges new_id c
  unfolding more_edges children
  to_child c m = edge c (
      children-append edges (active_edge dag parent new_id ∷ map (active_edge dag new_id) cs) new_id
        c
      ∙ ground (arith, child_edge dag new_id cs c m))

  from_parent : Reaches more_edges parent new_id
  unfolding more_edges children
  from_parent = edge new_id (
      children-append edges (active_edge dag parent new_id ∷ map (active_edge dag new_id) cs) parent
        new_id
      ∙ ground (arith, ==_refl parent, ==_refl new_id))

  old : (c : ℕ) → Reaches edges c parent → Reaches more_edges c parent
  unfolding more_edges
  old c p = Reaches-append edges _ c parent p

  cycle : (c : ℕ) → elem c cs ≡ true → Reaches edges c parent → Reaches more_edges new_id new_id
  cycle c m path =
      Reaches-trans more_edges new_id parent new_id
        (Reaches-trans more_edges new_id c parent (to_child c m) (old c path)) from_parent

-- The table of the edges takes `es` one after the other.
unfoldable pub takes : List Edge → List Edge → Bool
takes edges [] = true
takes edges (e ∷ es) = not (clashes e edges) && takes (edges ++ e ∷ []) es

takes_stops :
    (edges front : List Edge) (next : Edge) (rest : List Edge)
    → clashes next (edges ++ front) ≡ true
    → takes edges (front ++ next ∷ rest) ≡ false
unfolding takes
takes_stops edges [] next rest met = rw (ap (clashes next) (sym (append-nil edges)) ∙ met) refl
takes_stops edges (e ∷ front) next rest met = ground (
  arith,
  takes_stops (edges ++ e ∷ []) front next rest
      (ap (clashes next) (append_assoc edges (e ∷ []) front) ∙ met),
)

-- Where the DAG is there with less than twenty injected nodes, parent and children are nodes of it, the
-- id is free and the table takes the edges, an injection by no node is made, even where the edges lead
-- from a child to the parent: then the new node stands on a cycle. No other task writes meanwhile.
pub injection_closes_cycle :
    (clock : ℕ → ℕ) (new_id dag parent : ℕ) (spec : NodeSpec) (cs : List ℕ) (w : World) (c : ℕ)
    (d : DagRow)
    → select_dag dag w.dags ≡ some d
    → count_injected_nodes dag w.nodes < max_injections_per_dag
    → in_dag dag parent w.nodes ≡ true
    → all (λ i. in_dag dag i w.nodes) cs ≡ true
    → select new_id w.nodes ≡ none
    → takes w.edges (new_edges dag parent new_id cs) ≡ true
    → elem c cs ≡ true
    → Reaches w.edges c parent
    → let r = inject_node (quiet clock) new_id dag parent spec cs none w in
      (r.outcome ≡ inr new_id) × Reaches r.world.edges new_id new_id
unfolding more_edges
injection_closes_cycle clock new_id dag parent spec cs w c d there room p all_there free taken m
      path =
    close (inject_node-Outcome clock new_id dag parent spec cs none w)
  where
    no_reason : (e : InjectionError) → ¬ Reason new_id dag parent cs none w e
    no_reason dag_not_found h = cc
    no_reason too_many_injections h = omega arith
    no_reason loop_detected (by, e) = cc e
    no_reason parent_not_in_dag h = cc
    no_reason child_not_in_dag h = cc
    no_reason node_insert_failed (r, e) = cc
    no_reason edge_insert_failed h = h
    no_reason failed_not_in_dag h = h

    close :
        {r : Injected}
        → Outcome new_id dag parent spec cs none w r
        → (r.outcome ≡ inr new_id) × Reaches r.world.edges new_id new_id
    close (refused e o reason same) = absurd (no_reason e reason)
    close (half_done front next rest o parts met added q) =
        let z : takes w.edges (new_edges dag parent new_id cs) ≡ false =
          ap (takes w.edges) parts ∙ takes_stops w.edges front next rest met in
        absurd (ground (arith, z, taken))
    close (injected o added q) =
        (o, rw added.edges_after (cycle w.edges dag parent new_id cs c m path))
