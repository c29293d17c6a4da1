-- ===== src/Watchdog/Stuck.antt =====
-- What engine/lifecycle/watchdog.py does with one stuck node, while no other task writes.
use v10_engine.Prelude.{
  ℕ, ◌≡◌, ◌≢◌, refl, ◌∙◌, ap, Bool, true, false, ◌||◌, some, List, [], ◌∷◌, ◌++◌, arith, elem, leb,
  ◌==◌, ==_refl, if◌then◌else◌, Bool-cases, Option-cases, inl, inr,
}
use v10_engine.Prelude.Distinct.{Distinct}
use v10_engine.StateMachine.{in_progress, state_eq, one_of}
use v10_engine.Store.{NodeRow, select, write_row}
use v10_engine.Store.Laws.{
  ids, ids-write_row, updated, select-write_row_self, select-write_row_other,
}
use v10_engine.Store.World.{World, quiet, yield_to}
use v10_engine.Watchdog.{
  is_running, is_stuck, give_up_row, restart_row, is_unfinished, reset_pair_row, refers_to,
  pairs_with, first_row, reset_pair_node, handle_stuck, max_retries_of_stuck,
}

-- A row that is found by its contents is found by its key.
select-first_row :
    (p : NodeRow → Bool) (rows : List NodeRow) (x : NodeRow)
    → Distinct (ids rows)
    → first_row p rows ≡ some x
    → (select x.id rows ≡ some x) × (p x ≡ true) × (elem x.id (ids rows) ≡ true)
unfolding first_row select ids
select-first_row p [] x d e = absurd (ground arith)
select-first_row p (y ∷ rows) x d e = elim (Bool-cases (p y)) [
  | inl here ↦
      let same : y ≡ x = ground arith in
      rw (← same) (ground (arith, ==_refl y.id), here, ground (arith, ==_refl y.id))
  | inr there ↦
      let (found, holds, known) = select-first_row p rows x d.1 (ground arith) in
      let other : (y.id == x.id) ≡ false = elim (Bool-cases (y.id == x.id)) [
        | inr n ↦ n
        | inl m ↦ let k : y.id ≡ x.id = ground arith in absurd (let z = rw k at d.0 in ground arith)
      ] in
      (ground arith, holds, ground arith)
]

module _ (clock : ℕ → ℕ) (i : ℕ) where
  -- The reset of the pair leaves a row alone that refers to no pair with itself.
  reset_pair_node-other :
      (at : ℕ) (w : World) (r : NodeRow)
      → Distinct (ids w.nodes)
      → select i w.nodes ≡ some r
      → pairs_with i r ≡ false
      → select i (reset_pair_node (quiet clock) at i w).nodes ≡ some r
  unfolding reset_pair_node yield_to
  reset_pair_node-other at w r unique found alone =
      elim (Option-cases (first_row (pairs_with i) w.nodes)) [
        | inl e ↦ rw e found
        | inr (x, e) ↦
            let (x_found, pairs, known) = select-first_row (pairs_with i) w.nodes x unique e in
            let differ : x.id ≢ i = λ k.
              let same : x ≡ r = (let f = rw k at x_found in ground arith) in
              absurd (let p = rw same at pairs in ground arith) in
            rw e (
              select-write_row_other x.id i is_unfinished (reset_pair_row at) w.nodes (λ z. refl)
                differ
              ∙ found)
      ]

written_row :
    (w : World) (r : NodeRow)
    → select r.id w.nodes ≡ some r
    → r.state ≡ in_progress
    → (f : NodeRow → NodeRow) → ((x : NodeRow) → (f x).id ≡ x.id)
    → select r.id (write_row r.id is_running f w.nodes) ≡ some (f r)
unfolding state_eq
written_row w r found working f keeps =
    select-write_row_self r.id is_running f w.nodes keeps
    ∙ ap (updated is_running f) found
    ∙ ground (arith, working)

-- The row of a stuck node as one round leaves it.
abbrev pub fate : ℕ → NodeRow → NodeRow
fate at r = if leb max_retries_of_stuck r.retry_count then give_up_row at r else restart_row at r

-- A node in progress without a sign of life, whose agent is dead and which is no pair of itself: it
-- starts again with one retry more, or is FAILED once it has had three; it is reported as reset just
-- where it starts again.
pub handle_stuck-fate :
    (clock : ℕ → ℕ) (alive : ℕ → Bool) (at : ℕ) (r : NodeRow) (reset_ids : List ℕ) (w : World)
    → Distinct (ids w.nodes)
    → select r.id w.nodes ≡ some r
    → r.state ≡ in_progress
    → is_stuck at r ≡ true
    → alive r.id ≡ false
    → (refers_to r.id r.task_pair_node_id || refers_to r.id r.qa_pair_node_id) ≡ false
    → let s = handle_stuck (quiet clock) alive at r (reset_ids, w) in
      (select r.id s.1.nodes ≡ some (fate at r))
      × (s.0
          ≡ (if leb max_retries_of_stuck r.retry_count then reset_ids else reset_ids ++ r.id ∷ []))
unfolding handle_stuck yield_to state_eq one_of
handle_stuck-fate clock alive at r reset_ids w unique found working stuck dead alone =
    elim (Bool-cases (leb max_retries_of_stuck r.retry_count)) [
      | inl enough ↦
          rw (stuck, dead, enough)
            (written_row w r found working (give_up_row at) (λ x. refl), refl)
      | inr more ↦
          rw (stuck, dead, more)
            (
              reset_pair_node-other clock r.id at _ (restart_row at r)
                  (rw (ids-write_row r.id is_running (restart_row at) w.nodes (λ x. refl)) unique)
                  (written_row w r found working (restart_row at) (λ x. refl))
                  (ground (arith, alone)),
              refl,
            )
    ]
