-- ===== src/Cascade/Batch.antt =====
-- What `process_pending_batch` of engine/core/cascade.py leaves pending.
use v10_engine.Prelude.{
  ℕ, suc, ◌≤◌, ◌≡◌, ◌≢◌, refl, sym, ◌∙◌, ap, Bool, true, false, ◌||◌, Option, none, some, List, [],
  ◌∷◌, map, arith, keep, length, elem, ◌==◌, Bool-cases, Option-cases, inl, inr,
}
use v10_engine.Prelude.Sort.{insert_by, sorted}
use v10_engine.Prelude.Text.{take, take_all}
use v10_engine.StateMachine.{invalid, is_valid}
use v10_engine.Store.{NodeRow, any_row, at_version, select}
use v10_engine.Store.Laws.{select-write_row_other}
use v10_engine.Store.World.{World, quiet, yield_to}
use v10_engine.Cascade.{
  clear_row, invalid_row, clear_mark, apply_invalid, phase2_row, phase2_apply_invalid, phase2_all,
  pending_ids, queued_key, process_pending_batch,
}
use v10_engine.Cascade.Phase2.{settled_row, phase2_apply_invalid-Settles}

settled_row-calm : (at : ℕ) (r : NodeRow) → (settled_row at r).invalidation_pending ≡ false
unfolding settled_row
settled_row-calm at r = ground arith

-- The other rows.
module _ (clock : ℕ → ℕ) (i j : ℕ) (differ : i ≢ j) where
  clear_mark-other :
      (w : World) → select j (clear_mark (quiet clock) i w).1.nodes ≡ select j w.nodes
  unfolding yield_to
  clear_mark-other w =
      select-write_row_other i j any_row (clear_row (clock w.awaits)) w.nodes (λ x. refl) differ

  apply_invalid-other :
      (r : NodeRow) (w : World)
      → select j (apply_invalid (quiet clock) i r w).1.nodes ≡ select j w.nodes
  unfolding apply_invalid yield_to
  apply_invalid-other r w = elim (Bool-cases (is_valid r.state invalid)) [
    | inr refused ↦ rw refused (clear_mark-other w)
    | inl allowed ↦ rw allowed (
        select-write_row_other i j (at_version r.version) (invalid_row (clock w.awaits)) w.nodes
          (λ x. refl) differ)
  ]

  phase2_row-other :
      (has_agent : Bool) (o : Option NodeRow) (w : World)
      → select j (phase2_row (quiet clock) has_agent i o w).1.nodes ≡ select j w.nodes
  unfolding phase2_row yield_to
  phase2_row-other has_agent none w = refl
  phase2_row-other has_agent (some r) w = ground (
    arith,
    clear_mark-other w,
    apply_invalid-other r w,
    apply_invalid-other r (record w { awaits = suc w.awaits }),
  )

  pub phase2_apply_invalid-other :
      (has_agent : Bool) (w : World)
      → select j (phase2_apply_invalid (quiet clock) has_agent i w).1.nodes ≡ select j w.nodes
  unfolding phase2_apply_invalid yield_to
  phase2_apply_invalid-other has_agent w =
      phase2_row-other has_agent (select i w.nodes) (record w { awaits = suc w.awaits })

-- Every pending row is in the list.
abbrev Lists : World → List ℕ → Type 0
Lists w is =
    (j : ℕ) (r : NodeRow)
    → select j w.nodes ≡ some r
    → r.invalidation_pending ≡ true
    → elem j is ≡ true

module _ (clock : ℕ → ℕ) (has_agent : Bool) where
  phase2_apply_invalid-none :
      (i : ℕ) (w : World)
      → select i w.nodes ≡ none
      → select i (phase2_apply_invalid (quiet clock) has_agent i w).1.nodes ≡ none
  unfolding phase2_apply_invalid phase2_row yield_to
  phase2_apply_invalid-none i w e = rw e e

  phase2_apply_invalid-calm :
      (i : ℕ) (w : World) (r : NodeRow)
      → select i (phase2_apply_invalid (quiet clock) has_agent i w).1.nodes ≡ some r
      → r.invalidation_pending ≡ false
  phase2_apply_invalid-calm i w r e = elim (Option-cases (select i w.nodes)) [
    | inl absent ↦ absurd (let z = phase2_apply_invalid-none i w absent in ground arith)
    | inr (old, found) ↦
        let (at, row) = (phase2_apply_invalid-Settles clock has_agent i w old found).1 in
        let same : settled_row at old ≡ r = ground arith in rw (← same) (settled_row-calm at old)
  ]

  Lists-step :
      (i : ℕ) (is : List ℕ) (w : World)
      → Lists w (i ∷ is)
      → Lists (phase2_apply_invalid (quiet clock) has_agent i w).1 is
  Lists-step i is w h j r e pending = elim (Bool-cases (i == j)) [
    | inl same ↦
        let s : j ≡ i = ground arith in
        absurd (let z = phase2_apply_invalid-calm i w r (rw s at e) in ground arith)
    | inr other ↦
        let differ : i ≢ j = ground arith in
        let before =
          h j r (sym (phase2_apply_invalid-other clock i j differ has_agent w) ∙ e) pending in
        ground arith
  ]

  phase2_all-calm :
      (is : List ℕ) (w : World) → Lists w is → Lists (phase2_all (quiet clock) has_agent is w).1 []
  unfolding phase2_all
  phase2_all-calm [] w h = h
  phase2_all-calm (i ∷ is) w h =
      phase2_all-calm is (phase2_apply_invalid (quiet clock) has_agent i w).1 (Lists-step i is w h)

ids_of : List NodeRow → List ℕ
ids_of rows = map (λ r. r.id) rows

elem-insert_by :
    (key : NodeRow → ℕ) (x : NodeRow) (a : ℕ) (xs : List NodeRow)
    → elem a (ids_of (insert_by key x xs)) ≡ (x.id == a || elem a (ids_of xs))
unfolding insert_by ids_of
elem-insert_by key x a [] = refl
elem-insert_by key x a (y ∷ ys) = ground (arith, elem-insert_by key x a ys)

elem-sorted :
    (key : NodeRow → ℕ) (a : ℕ) (xs : List NodeRow)
    → elem a (ids_of (sorted key xs)) ≡ elem a (ids_of xs)
unfolding sorted ids_of
elem-sorted key a [] = refl
elem-sorted key a (x ∷ xs) =
    elem-insert_by key x a (sorted key xs) ∙ ap (λ b. x.id == a || b) (elem-sorted key a xs)

length-insert_by :
    (key : NodeRow → ℕ) (x : NodeRow) (xs : List NodeRow)
    → length (ids_of (insert_by key x xs)) ≡ suc (length (ids_of xs))
unfolding insert_by ids_of
length-insert_by key x [] = refl
length-insert_by key x (y ∷ ys) = ground (arith, length-insert_by key x ys)

length-sorted :
    (key : NodeRow → ℕ) (xs : List NodeRow) → length (ids_of (sorted key xs)) ≡ length xs
unfolding sorted ids_of
length-sorted key [] = refl
length-sorted key (x ∷ xs) = length-insert_by key x (sorted key xs) ∙ ap suc (length-sorted key xs)

abbrev is_pending : NodeRow → Bool
is_pending r = r.invalidation_pending

elem-pending :
    (rows : List NodeRow) (j : ℕ) (r : NodeRow)
    → select j rows ≡ some r
    → r.invalidation_pending ≡ true
    → elem j (ids_of (keep is_pending rows)) ≡ true
unfolding select ids_of
elem-pending [] j r e p = ground arith
elem-pending (x ∷ rows) j r e p = ground (arith, elem-pending rows j r)

-- A batch with room for all pending rows leaves none, while no other task writes.
pub process_pending_batch_clears :
    (clock : ℕ → ℕ) (has_agent : Bool) (limit : ℕ) (w : World)
    → length (keep (λ r. r.invalidation_pending) w.nodes) ≤ limit
    → (j : ℕ) (r : NodeRow)
    → select j (process_pending_batch (quiet clock) has_agent limit w).1.nodes ≡ some r
    → r.invalidation_pending ≡ false
unfolding process_pending_batch pending_ids yield_to ids_of
process_pending_batch_clears clock has_agent limit w room j r e =
    let rows = keep is_pending w.nodes in
    let all_ids = ids_of (sorted queued_key rows) in
    let lists : Lists (record w { awaits = suc w.awaits }) (take limit all_ids) = λ a x f p.
      rw (take_all limit all_ids (omega (arith, length-sorted queued_key rows)))
        (elem-sorted queued_key a rows ∙ elem-pending w.nodes a x f p) in
    let calm =
      phase2_all-calm clock has_agent (take limit all_ids) (record w { awaits = suc w.awaits })
        lists in
    elim (Bool-cases r.invalidation_pending) [
      | inr calm_row ↦ calm_row
      | inl pending ↦ absurd (let z = calm j r e pending in ground arith)
    ]
