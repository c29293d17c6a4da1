-- ===== src/Watchdog/Protocol.antt =====
-- The watchdog of engine/lifecycle/watchdog.py keeps to the protocol of the optimistic lock.
use v10_engine.Prelude.{
  ℕ, refl, inl, inr, Bool, Option, none, some, List, [], ◌∷◌, leb, Bool-cases, keep,
}
use v10_engine.Prelude.Text.{take}
use v10_engine.Store.{NodeRow, Failure, select, write_row}
use v10_engine.Store.World.{now, World, Env, yield_to, set_nodes, Follows, Respects}
use v10_engine.Store.Protocol.{
  Follows-refl, Follows-trans, Raises, KeepsKey, write_row-Follows, write_where-Follows,
  yield_to-Follows,
}
use v10_engine.Watchdog.Reasons.{Patterns}
use v10_engine.Watchdog.{
  is_running, is_stuck, give_up_row, restart_row, is_unfinished, reset_pair_row, reset_found_pair,
  reset_pair_node, handle_stuck, handle_all_stuck, enqueue_dags_for_nodes, check_stuck_nodes,
  max_retries_of_stuck, resume_all, is_suspended, is_failed, resumed_row,
  recover_transient_suspended, recover_transient_failed, watchdog_cycle,
}

-- A run from `w` to `v` keeps to the protocol at each row.
pub record Lawful (w v : World) : Type 0 where
  pub at_row : (j : ℕ) → Follows (select j w.nodes) (select j v.nodes)

Lawful-refl : {w : World} → Lawful w w
Lawful-refl {w} = record { at_row = λ j. Follows-refl (select j w.nodes) }

Lawful-trans : {w v u : World} → Lawful w v → Lawful v u → Lawful w u
Lawful-trans {w} {v} {u} a b = record {
  at_row = λ j.
      Follows-trans (select j w.nodes) (select j v.nodes) (select j u.nodes) (a.at_row j)
        (b.at_row j);
}

module _ (env : Env) (respects : Respects env) where
  turn-Lawful : (w : World) → Lawful w (yield_to env w)
  turn-Lawful w = record { at_row = yield_to-Follows env w respects }

  -- A turn of the others, and a statement on one row.
  write-Lawful :
      (w : World) (i : ℕ) (q : NodeRow → Bool) (f : NodeRow → NodeRow)
      → KeepsKey f
      → Raises f
      → Lawful w (set_nodes (yield_to env w) (write_row i q f (yield_to env w).nodes))
  write-Lawful w i q f keeps raises =
      Lawful-trans (turn-Lawful w)
        (record { at_row = write_row-Follows i q f (yield_to env w).nodes keeps raises })

  reset_found_pair-Lawful :
      (at : ℕ) (o : Option NodeRow) (w : World) → Lawful w (reset_found_pair env at o w)
  reset_found_pair-Lawful at none w = Lawful-refl
  reset_found_pair-Lawful at (some pair) w =
      write-Lawful w pair.id is_unfinished (reset_pair_row at) (λ r. refl) (λ r. refl)

  reset_pair_node-Lawful : (at i : ℕ) (w : World) → Lawful w (reset_pair_node env at i w)
  unfolding reset_pair_node
  reset_pair_node-Lawful at i w =
      Lawful-trans (turn-Lawful w) (reset_found_pair-Lawful at _ (yield_to env w))

  handle_stuck-Lawful :
      (alive : ℕ → Bool) (at : ℕ) (r : NodeRow) (ids : List ℕ) (w : World)
      → Lawful w (handle_stuck env alive at r (ids, w)).1
  unfolding handle_stuck
  handle_stuck-Lawful alive at r ids w =
      let w1 = yield_to env w in
      let to_w1 = turn-Lawful w in
      elim (Bool-cases (is_stuck at r)) [
        | inr fine ↦ rw fine Lawful-refl
        | inl stuck ↦ rw stuck (elim (Bool-cases (alive r.id)) [
          | inl a ↦ rw a to_w1
          | inr a ↦ rw a (elim (Bool-cases (leb max_retries_of_stuck r.retry_count)) [
            | inl e ↦ rw e (
                Lawful-trans to_w1
                  (write-Lawful w1 r.id is_running (give_up_row at) (λ x. refl) (λ x. refl)))
            | inr e ↦ rw e (
                Lawful-trans to_w1 (
                  Lawful-trans
                    (write-Lawful w1 r.id is_running (restart_row at) (λ x. refl) (λ x. refl))
                    (reset_pair_node-Lawful at r.id _)))
          ])
        ])
      ]

  handle_all_stuck-Lawful :
      (alive : ℕ → Bool) (at : ℕ) (rows : List NodeRow) (ids : List ℕ) (w : World)
      → Lawful w (handle_all_stuck env alive at rows (ids, w)).1
  unfolding handle_all_stuck
  handle_all_stuck-Lawful alive at [] ids w = Lawful-refl
  handle_all_stuck-Lawful alive at (r ∷ rows) ids w =
      let s = handle_stuck env alive at r (ids, w) in
      Lawful-trans (handle_stuck-Lawful alive at r ids w)
        (handle_all_stuck-Lawful alive at rows s.0 s.1)

  enqueue_dags_for_nodes-Lawful :
      (ids : List ℕ) (w : World) → Lawful w (enqueue_dags_for_nodes env ids w)
  unfolding enqueue_dags_for_nodes
  enqueue_dags_for_nodes-Lawful [] w = Lawful-refl
  enqueue_dags_for_nodes-Lawful (i ∷ ids) w = record { at_row = (turn-Lawful w).at_row }

  check_stuck_nodes-Lawful :
      (alive : ℕ → Bool) (w : World) → Lawful w (check_stuck_nodes env alive w)
  unfolding check_stuck_nodes
  check_stuck_nodes-Lawful alive w =
      let rows = take 100 (keep is_running (yield_to env w).nodes) in
      let s = handle_all_stuck env alive (now env w) rows ([], yield_to env w) in
      Lawful-trans (turn-Lawful w) (
        Lawful-trans (handle_all_stuck-Lawful alive (now env w) rows [] (yield_to env w))
          (enqueue_dags_for_nodes-Lawful s.0 s.1))

  resume_all-Lawful :
      (still : NodeRow → Bool) (f : NodeRow → NodeRow) (ids : List ℕ) (w : World)
      → KeepsKey f
      → Raises f
      → Lawful w (resume_all env still f ids w)
  resume_all-Lawful still f [] w keeps raises = Lawful-refl
  resume_all-Lawful still f (i ∷ ids) w keeps raises = Lawful-trans (turn-Lawful w) (
      Lawful-trans (record { at_row = write_where-Follows _ f (yield_to env w).nodes keeps raises })
        (enqueue_dags_for_nodes-Lawful (i ∷ ids) _))

  module _ (patterns : Patterns) (size : List Failure → ℕ) where
    recover_transient_suspended-Lawful :
        (w : World) → Lawful w (recover_transient_suspended env patterns size w)
    unfolding recover_transient_suspended
    recover_transient_suspended-Lawful w =
        Lawful-trans (turn-Lawful w) (
          resume_all-Lawful is_suspended (resumed_row _) _ (yield_to env w) (λ r. refl) (λ r. refl))

    recover_transient_failed-Lawful :
        (w : World) → Lawful w (recover_transient_failed env patterns size w)
    unfolding recover_transient_failed
    recover_transient_failed-Lawful w =
        Lawful-trans (turn-Lawful w) (
          resume_all-Lawful is_failed (reset_pair_row _) _ (yield_to env w) (λ r. refl) (λ r. refl))

-- A round of the watchdog, among other tasks that keep to the protocol of the lock, raises the version
-- of every row whose state it changes: what was read of the row before is out of date.
pub watchdog_cycle-Lawful :
    (env : Env) (alive : ℕ → Bool) (patterns : Patterns) (size : List Failure → ℕ) (w : World)
    → Respects env
    → Lawful w (watchdog_cycle env alive patterns size w)
unfolding watchdog_cycle
watchdog_cycle-Lawful env alive patterns size w respects =
    let w1 = check_stuck_nodes env alive w in
    let w2 = recover_transient_suspended env patterns size w1 in
    let w3 = recover_transient_failed env patterns size w2 in
    Lawful-trans (check_stuck_nodes-Lawful env respects alive w) (
      Lawful-trans (recover_transient_suspended-Lawful env respects patterns size w1) (
        Lawful-trans (recover_transient_failed-Lawful env respects patterns size w2)
          (turn-Lawful env respects w3)))
