-- ===== src/DynamicDag/Outcome.antt =====
-- What an injection by engine/core/dynamic_dag.py leaves behind, while no other task writes.
use v10_engine.Prelude.{
  ℕ, zero, suc, ◌<◌, ◌≡◌, refl, sym, ◌∙◌, ap, inl, inr, true, Option, none, some, List, [], ◌∷◌,
  ◌++◌, arith, all, leb, ◌==◌, Bool-cases, Option-cases,
}
use v10_engine.Store.{select, select_dag}
use v10_engine.Store.World.{Db, World, Env, quiet, yield_to}
use v10_engine.DynamicDag.{
  dag_not_found, too_many_injections, loop_detected, parent_not_in_dag, child_not_in_dag, NodeSpec,
  max_injections_per_dag, count_injected_nodes, detects_injection_loop, injector_of, loop_check,
  in_dag, children_in_dag, new_row, clashes, new_edges, node_insert_failed, insert_node, insert_all,
  inject_below, inject_node,
}
use v10_engine.DynamicDag.Edges.{all_joined, stopped, insert_edges-Joined}
use v10_engine.DynamicDag.Ends.{Same, Same-trans, Outcome, refused, half_done, injected}

module _ (clock : ℕ → ℕ) where
  turn-Same : (w : World) → Same w (yield_to (quiet clock) w)
  unfolding yield_to
  turn-Same w = record { same_db = refl; same_queue = refl }

  detects_injection_loop-Same :
      (hops new_parent current : ℕ) (w : World)
      → Same w (detects_injection_loop (quiet clock) hops new_parent current w).1
  unfolding detects_injection_loop yield_to
  detects_injection_loop-Same zero new_parent current w = record {
    same_db = refl;
    same_queue = refl;
  }
  detects_injection_loop-Same (suc hops) new_parent current w =
      elim (Bool-cases (current == new_parent)) [
        | inl met ↦ rw met (record { same_db = refl; same_queue = refl })
        | inr other ↦ elim (Option-cases (injector_of (select current w.nodes))) [
          | inl e ↦ rw (other, e) (turn-Same w)
          | inr (by, e) ↦
              rw (other, e)
                (Same-trans (turn-Same w)
                  (detects_injection_loop-Same hops new_parent by (yield_to (quiet clock) w)))
        ]
      ]

  loop_check-Same :
      (injected_by : Option ℕ) (parent : ℕ) (w : World)
      → Same w (loop_check (quiet clock) injected_by parent w).1
  loop_check-Same none parent w = record { same_db = refl; same_queue = refl }
  loop_check-Same (some by) parent w = detects_injection_loop-Same 20 parent by w

  children_in_dag_lem :
      (dag : ℕ) (cs : List ℕ) (w : World)
      → ((children_in_dag (quiet clock) dag cs w).0 ≡ all (λ c. in_dag dag c w.nodes) cs)
        × Same w (children_in_dag (quiet clock) dag cs w).1
  unfolding children_in_dag yield_to
  children_in_dag_lem dag [] w = (refl, record { same_db = refl; same_queue = refl })
  children_in_dag_lem dag (c ∷ cs) w = elim (Bool-cases (in_dag dag c w.nodes)) [
    | inr absent ↦ rw absent (refl, record { same_db = refl; same_queue = refl })
    | inl there ↦
        let (same, rest) = children_in_dag_lem dag cs (yield_to (quiet clock) w) in
        rw there (same, Same-trans (turn-Same w) rest)
  ]

  module _ (new_id dag parent : ℕ) (spec : NodeSpec) (children : List ℕ)
      (injected_by : Option ℕ) where
    -- The inserts, at a world that differs from `w` in no table.
    insert_all-Outcome :
        (w v : World)
        → Same w v
        → count_injected_nodes dag w.nodes < max_injections_per_dag
        → in_dag dag parent w.nodes ≡ true
        → all (λ c. in_dag dag c w.nodes) children ≡ true
        → Outcome new_id dag parent spec children injected_by w
            (insert_all (quiet clock) new_id dag parent spec children injected_by v)
    unfolding insert_all insert_node yield_to select
    insert_all-Outcome w v same room p cs =
        let row = new_row new_id dag spec injected_by (clock v.awaits) in
        let v1 : World = record v {
          db = record v.db { nodes = v.nodes ++ row ∷ [] };
          awaits = suc v.awaits;
        } in
        let nodes_eq = ap (λ (d : Db). d.nodes) same.same_db in
        let edges_eq = ap (λ (d : Db). d.edges) same.same_db in
        elim (Option-cases (select new_id v.nodes)) [
          | inr (old, e) ↦ rw e (
              refused node_insert_failed refl (old, ap (select new_id) (sym nodes_eq) ∙ e)
                (Same-trans same (turn-Same v)))
          | inl e ↦
              let fresh = ap (select new_id) (sym nodes_eq) ∙ e in
              rw e (elim (insert_edges-Joined clock (new_edges dag parent new_id children) v1) [
                | all_joined b e1 n q ↦ rw b (
                    injected refl
                      (record {
                        at = clock v.awaits;
                        nodes_after = n ∙ ap (λ l. l ++ row ∷ []) nodes_eq;
                        edges_after =
                            e1 ∙ ap (λ l. l ++ new_edges dag parent new_id children) edges_eq;
                        room = room;
                        parent_there = p;
                        children_there = cs;
                        fresh = fresh;
                      })
                      (ap (λ l. l ++ dag ∷ []) (q ∙ same.same_queue)))
                | stopped front next rest b parts met e1 n q ↦ rw b (
                    half_done front next rest refl parts
                      (ap (λ l. clashes next (l ++ front)) (sym edges_eq) ∙ met)
                      (record {
                        at = clock v.awaits;
                        nodes_after = n ∙ ap (λ l. l ++ row ∷ []) nodes_eq;
                        edges_after = e1 ∙ ap (λ l. l ++ front) edges_eq;
                        room = room;
                        parent_there = p;
                        children_there = cs;
                        fresh = fresh;
                      })
                      (q ∙ same.same_queue))
              ])
        ]

    inject_below-Outcome :
        (w v : World)
        → Same w v
        → count_injected_nodes dag w.nodes < max_injections_per_dag
        → Outcome new_id dag parent spec children injected_by w
            (inject_below (quiet clock) new_id dag parent spec children injected_by v)
    unfolding inject_below yield_to
    inject_below-Outcome w v same room =
        let v' = yield_to (quiet clock) v in
        let (answer, kept) = children_in_dag_lem dag children v' in
        let here = ap (λ (d : Db). in_dag dag parent d.nodes) same.same_db in
        let there = ap (λ (d : Db). all (λ c. in_dag dag c d.nodes) children) same.same_db in
        let later = Same-trans same (Same-trans (turn-Same v) kept) in
        elim (Bool-cases (in_dag dag parent v.nodes)) [
          | inr absent ↦
              rw absent
                (refused parent_not_in_dag refl (sym here ∙ absent) (Same-trans same (turn-Same v)))
          | inl found ↦ elim (Bool-cases (children_in_dag (quiet clock) dag children v').0) [
            | inr missing ↦
                rw (found, missing)
                  (refused child_not_in_dag refl (sym there ∙ sym answer ∙ missing) later)
            | inl all_there ↦
                rw (found, all_there)
                  (insert_all-Outcome w _ later room (sym here ∙ found)
                    (sym there ∙ sym answer ∙ all_there))
          ]
        ]

loop_check-by :
    (env : Env) (injected_by : Option ℕ) (parent : ℕ) (w : World)
    → (loop_check env injected_by parent w).0 ≡ true
    → (by : ℕ) × (injected_by ≡ some by)
loop_check-by env none parent w h = absurd (ground (arith, h))
loop_check-by env (some by) parent w h = (by, refl)

pub inject_node-Outcome :
    (clock : ℕ → ℕ) (new_id dag parent : ℕ) (spec : NodeSpec) (children : List ℕ)
    (injected_by : Option ℕ) (w : World)
    → Outcome new_id dag parent spec children injected_by w
        (inject_node (quiet clock) new_id dag parent spec children injected_by w)
unfolding inject_node yield_to
inject_node-Outcome clock new_id dag parent spec children injected_by w =
    let w2 = yield_to (quiet clock) (yield_to (quiet clock) w) in
    let same : Same w w2 = record { same_db = refl; same_queue = refl } in
    let check = loop_check (quiet clock) injected_by parent w2 in
    let kept = Same-trans same (loop_check-Same clock injected_by parent w2) in
    elim (Option-cases (select_dag dag w.dags)) [
      | inl e ↦
          rw (e, inject_node)
            (refused dag_not_found refl e (record { same_db = refl; same_queue = refl }))
      | inr (d, e) ↦
          elim (Bool-cases (leb max_injections_per_dag (count_injected_nodes dag w.nodes))) [
            | inl full ↦
                rw (e, inject_node) (rw full (refused too_many_injections refl (ground arith) same))
            | inr space ↦ elim (Bool-cases check.0) [
              | inl looping ↦
                  rw (e, inject_node)
                    (rw (space, looping)
                      (refused loop_detected refl
                        (loop_check-by (quiet clock) injected_by parent w2 looping) kept))
              | inr fine ↦
                  rw (e, inject_node)
                    (rw (space, fine)
                      (inject_below-Outcome clock new_id dag parent spec children injected_by w
                        check.1 kept (ground (arith, space))))
            ]
          ]
    ]
