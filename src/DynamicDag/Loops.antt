-- ===== src/DynamicDag/Loops.antt =====
-- What the loop check of engine/core/dynamic_dag.py accepts and refuses, while no other task writes.
use v10_engine.Prelude.{
  ◌↔◌, ℕ, zero, suc, ◌≤◌, ◌<◌, ◌≡◌, ◌≢◌, refl, true, false, none, some, List, arith, inl, inr, leb,
  ◌==◌, ==_refl, Bool-cases, Option-cases,
}
use v10_engine.Store.{NodeRow, DagRow, Text, select, select_dag}
use v10_engine.Store.World.{World, quiet, yield_to}
use v10_engine.DynamicDag.{
  loop_detected, detects_injection_loop, injector_of, inject_node, count_injected_nodes,
  max_injections_per_dag, inject_repair_node, ancestor_of,
}

-- The chain of injectors from a node ends, after as many hops, without meeting `parent`.
pub data Ends (rows : List NodeRow) (parent : ℕ) : ℕ → ℕ → Type 0 where
  last : (i : ℕ) → i ≢ parent → injector_of (select i rows) ≡ none → Ends rows parent i 1
  hop :
      {hops : ℕ} (i by : ℕ)
      → i ≢ parent
      → injector_of (select i rows) ≡ some by
      → Ends rows parent by hops
      → Ends rows parent i (suc hops)

-- Where the check finds no loop.
detects_injection_loop_sound :
    (clock : ℕ → ℕ) (hops parent current : ℕ) (w : World)
    → (detects_injection_loop (quiet clock) hops parent current w).0 ≡ false
    → (n : ℕ) × (n ≤ hops) × Ends w.nodes parent current n
unfolding detects_injection_loop yield_to
detects_injection_loop_sound clock zero parent current w h = absurd (ground arith)
detects_injection_loop_sound clock (suc hops) parent current w h =
    elim (Bool-cases (current == parent)) [
      | inl met ↦ absurd (let z = rw met at h in ground arith)
      | inr other ↦
          let differ : current ≢ parent = ground arith in
          elim (Option-cases (injector_of (select current w.nodes))) [
            | inl e ↦ (1, omega arith, last current differ e)
            | inr (by, e) ↦
                let h' = rw (other, e) at h in
                let (n, low, chain) =
                  detects_injection_loop_sound clock hops parent by (yield_to (quiet clock) w) h' in
                (suc n, omega arith, hop current by differ e chain)
          ]
    ]

-- Where the chain ends.
detects_injection_loop_complete :
    (clock : ℕ → ℕ) (hops parent current : ℕ) (w : World) {n : ℕ}
    → Ends w.nodes parent current n
    → n ≤ hops
    → (detects_injection_loop (quiet clock) hops parent current w).0 ≡ false
unfolding detects_injection_loop yield_to
detects_injection_loop_complete clock zero parent current w (last i d e) low = absurd (omega arith)
detects_injection_loop_complete clock zero parent current w (hop i by d e c) low =
    absurd (omega arith)
detects_injection_loop_complete clock (suc hops) parent _ w (last i d e) low =
    let other : (i == parent) ≡ false = ground (arith, d) in rw (other, e) refl
detects_injection_loop_complete clock (suc hops) parent _ w (hop i by d e c) low =
    let other : (i == parent) ≡ false = ground (arith, d) in
    rw (other, e)
      (detects_injection_loop_complete clock hops parent by (yield_to (quiet clock) w) c
        (omega arith))

-- The check finds no loop just where the chain of injectors ends within the hops, without meeting the
-- parent of the new node.
pub detects_injection_loop_exact :
    (clock : ℕ → ℕ) (hops parent current : ℕ) (w : World)
    → ((detects_injection_loop (quiet clock) hops parent current w).0 ≡ false)
      ↔ ((n : ℕ) × (n ≤ hops) × Ends w.nodes parent current n)
detects_injection_loop_exact clock hops parent current w = (
  detects_injection_loop_sound clock hops parent current w,
  λ (n, low, chain). detects_injection_loop_complete clock hops parent current w chain low,
)

-- A failed node that depends on nothing gets no repair node: it is taken for its own parent and for the
-- injector, which the check calls a loop.
pub repair_of_root_refused :
    (clock : ℕ → ℕ) (new_id dag failed : ℕ) (description : Text) (w : World) {r : NodeRow}
    {d : DagRow}
    → select failed w.nodes ≡ some r
    → r.dag_id ≡ dag
    → select_dag dag w.dags ≡ some d
    → count_injected_nodes dag w.nodes < max_injections_per_dag
    → ancestor_of dag failed w.edges ≡ none
    → (inject_repair_node (quiet clock) new_id dag failed description w).outcome ≡ inl loop_detected
unfolding inject_repair_node inject_node detects_injection_loop yield_to
repair_of_root_refused clock new_id dag failed description w {r} {d} found own there room root =
    let mine : (r.dag_id == dag) ≡ true = ground (arith, own) in
    let space : leb max_injections_per_dag (count_injected_nodes dag w.nodes) ≡ false =
      ground (arith, room) in
    rw (found, inject_repair_node)
      (rw (mine, root) (rw (there, inject_node) (rw (space, ==_refl failed) refl)))
