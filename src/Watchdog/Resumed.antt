-- ===== src/Watchdog/Resumed.antt =====
-- Which nodes engine/lifecycle/watchdog.py resumes, while no other task writes.
use v10_engine.Prelude.{
  ℕ, ◌≤◌, ◌≡◌, refl, ◌∙◌, ap, Bool, false, ◌&&◌, some, List, [], ◌∷◌, map, arith, keep, length,
  elem, ◌==◌, if◌then◌else◌, Bool-cases, inl, inr,
}
use v10_engine.Prelude.Distinct.{Distinct}
use v10_engine.Prelude.Text.{take_all}
use v10_engine.Store.{NodeRow, Failure, select}
use v10_engine.Store.Laws.{ids, updated, select-write_where, id-select}
use v10_engine.Store.World.{World, quiet, yield_to}
use v10_engine.Watchdog.Reasons.{Patterns}
use v10_engine.Watchdog.{
  is_suspended, resumes_suspended, resumed_row, resume_all, enqueue_dags_for_nodes,
  recover_transient_suspended,
}

chosen : (NodeRow → Bool) → (NodeRow → Bool) → List NodeRow → List ℕ
chosen p q rows = map (λ r. r.id) (keep q (keep p rows))

elem-chosen_absent :
    (p q : NodeRow → Bool) (rows : List NodeRow) (j : ℕ)
    → elem j (ids rows) ≡ false
    → elem j (chosen p q rows) ≡ false
unfolding chosen ids
elem-chosen_absent p q [] j h = refl
elem-chosen_absent p q (x ∷ rows) j h = ground (arith, elem-chosen_absent p q rows j)

-- A key is chosen just where its row is.
elem-chosen :
    (p q : NodeRow → Bool) (rows : List NodeRow) (j : ℕ) (r : NodeRow)
    → Distinct (ids rows)
    → select j rows ≡ some r
    → elem j (chosen p q rows) ≡ (p r && q r)
unfolding chosen ids select
elem-chosen p q [] j r d e = ground arith
elem-chosen p q (x ∷ rows) j r d e = elim (Bool-cases (x.id == j)) [
  | inl here ↦
      let same : x ≡ r = ground arith in
      let key : x.id ≡ j = ground arith in
      let absent : elem j (chosen p q rows) ≡ false =
        elem-chosen_absent p q rows j (rw key at d.0) in
      rw (← same) (ground (arith, here, absent))
  | inr there ↦ ground (arith, elem-chosen p q rows j r d.1)
]

nodes-enqueue_dags_for_nodes :
    (clock : ℕ → ℕ) (is : List ℕ) (w : World)
    → (enqueue_dags_for_nodes (quiet clock) is w).nodes ≡ w.nodes
unfolding enqueue_dags_for_nodes yield_to
nodes-enqueue_dags_for_nodes clock [] w = refl
nodes-enqueue_dags_for_nodes clock (i ∷ is) w = refl

module _ (clock : ℕ → ℕ) (still : NodeRow → Bool) (f : NodeRow → NodeRow)
    (keeps : (r : NodeRow) → (f r).id ≡ r.id) where
  resume_all_row :
      (is : List ℕ) (w : World) (j : ℕ) (r : NodeRow)
      → select j w.nodes ≡ some r
      → select j (resume_all (quiet clock) still f is w).nodes
        ≡ some (if elem j is && still r then f r else r)
  unfolding yield_to
  resume_all_row [] w j r e = e
  resume_all_row (i ∷ is) w j r e =
      ap (select j) (nodes-enqueue_dags_for_nodes clock (i ∷ is) _)
      ∙ select-write_where j (λ x. elem x.id (i ∷ is) && still x) f w.nodes keeps
      ∙ ap (updated (λ x. elem x.id (i ∷ is) && still x) f) e
      ∙ ap (λ k. some (if elem k (i ∷ is) && still r then f r else r)) (id-select j w.nodes e)

abbrev pub RoomFor : (NodeRow → Bool) → World → Type 0
RoomFor p w = length (keep p w.nodes) ≤ 500

-- While no other task writes, and there are no more suspended rows than the limit of the query, the
-- recovery of suspended nodes resumes just the rows of its rule, and leaves the others alone.
pub recover_transient_suspended_row :
    (clock : ℕ → ℕ) (patterns : Patterns) (size : List Failure → ℕ) (w : World) (j : ℕ)
    (r : NodeRow)
    → Distinct (ids w.nodes)
    → RoomFor is_suspended w
    → select j w.nodes ≡ some r
    → select j (recover_transient_suspended (quiet clock) patterns size w).nodes
      ≡ some (
          if is_suspended r && resumes_suspended patterns size (clock w.awaits) r
          then resumed_row (clock w.awaits) r
          else r)
unfolding recover_transient_suspended yield_to chosen
recover_transient_suspended_row clock patterns size w j r unique room found =
    let q = resumes_suspended patterns size (clock w.awaits) in
    rw (take_all 500 (keep is_suspended w.nodes) room) (
      resume_all_row clock is_suspended (resumed_row (clock w.awaits)) (λ x. refl)
        (chosen is_suspended q w.nodes) _ j r found
      ∙ rw (elem-chosen is_suspended q w.nodes j r unique found) (ground arith))
