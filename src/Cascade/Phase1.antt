-- ===== src/Cascade/Phase1.antt =====
-- What `phase1_mark_pending` of engine/core/cascade.py marks while no other task writes.
use v10_engine.Prelude.{
  ℕ, ◌≡◌, refl, ◌∙◌, ap, Bool, true, false, not, ◌&&◌, ◌||◌, Option, some, List, [], ◌∷◌, arith,
  ◌==◌, elem, if◌then◌else◌,
}
use v10_engine.Store.{NodeRow, Text, ChangeType, select, write_row}
use v10_engine.Store.Laws.{updated, select-write_row}
use v10_engine.Store.World.{World, quiet, yield_to, set_nodes}
use v10_engine.Cascade.Downstream.{downstream_nodes}
use v10_engine.Cascade.{mark_row, mark_all, not_pending, sections_of, phase1_mark_pending}

-- The row as a marking by f leaves it, where it is asked for.
unfoldable pub marked : (NodeRow → NodeRow) → Bool → NodeRow → NodeRow
marked f asked r = if asked && not r.invalidation_pending then f r else r

module _ (f : NodeRow → NodeRow) (keeps : (r : NodeRow) → (f r).id ≡ r.id)
    (sets : (r : NodeRow) → (f r).invalidation_pending ≡ true) where
  -- A second marking finds nothing to do.
  marked_twice : (a b : Bool) (r : NodeRow) → marked f b (marked f a r) ≡ marked f (a || b) r
  unfolding marked
  marked_twice a b r = ground (arith, sets r)

  mark_all-marked :
      (clock : ℕ → ℕ) (is : List ℕ) (w : World) (j : ℕ) (r : NodeRow)
      → select j w.nodes ≡ some r
      → select j (mark_all (quiet clock) f is w).nodes ≡ some (marked f (elem j is) r)
  unfolding mark_all marked yield_to
  mark_all-marked clock [] w j r e = e
  mark_all-marked clock (i ∷ is) w j r e =
      let v = set_nodes (yield_to (quiet clock) w) (write_row i not_pending f w.nodes) in
      let row : select j v.nodes ≡ some (marked f (i == j) r) =
        select-write_row i j not_pending f w.nodes keeps
        ∙ one (i == j) (λ s. let t : i ≡ j = ground arith in rw t e) in
      mark_all-marked clock is v j (marked f (i == j) r) row
      ∙ ap some (marked_twice (i == j) (elem j is) r)
    where
      one :
          (b : Bool)
          → (b ≡ true → select i w.nodes ≡ some r)
          → (if b then updated not_pending f (select i w.nodes) else select j w.nodes)
            ≡ some (marked f b r)
      one true h = rw (h refl) refl
      one false h = e

-- Phase 1 marks the rows below the changed node that were not pending, and no other row.
pub phase1_mark_pending_marks :
    (clock : ℕ → ℕ) (changed : ℕ) (change_type : ChangeType) (sections : Option (List Text))
    (w : World) (j : ℕ) (r : NodeRow)
    → select j w.nodes ≡ some r
    → select j (phase1_mark_pending (quiet clock) changed change_type sections w).1.nodes
      ≡ some (
          marked
            (mark_row changed (clock w.awaits) change_type (sections_of sections))
            (elem j (downstream_nodes w.edges changed))
            r)
unfolding phase1_mark_pending
phase1_mark_pending_marks clock changed change_type sections w j r found =
    mark_all-marked (mark_row changed (clock w.awaits) change_type (sections_of sections))
      (λ x. refl) (λ x. refl) clock (downstream_nodes w.edges changed) w j r found
