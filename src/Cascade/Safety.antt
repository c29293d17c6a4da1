-- ===== src/Cascade/Safety.antt =====
-- `phase2_apply_invalid` of engine/core/cascade.py among other tasks that write the same rows.
use v10_engine.Cascade.{
  [], clear_row, invalid_row, clear_mark, apply_invalid, phase2_row, phase2_apply_invalid,
}
use v10_engine.Prelude.{
  ℕ, ◌≡◌, refl, true, false, ◌&&◌, Bool, Option, none, some, List, arith, ◌==◌, inl, inr,
  if◌then◌else◌, Bool-cases,
}
use v10_engine.StateMachine.{invalid, skipped, in_progress, state_eq, is_valid}
use v10_engine.Store.{NodeRow, any_row, at_version, select, write_row}
use v10_engine.Store.Laws.{updated, select-write_row}
use v10_engine.Store.World.{World, Env, yield_to, now, Respects}
use v10_engine.Advancer.{NodeSnapshot}
use v10_engine.Advancer.Advance.{snapshot}
use v10_engine.Advancer.Transition.Safety.{
  Agrees, Agrees-Follows, Steps, Steps-refl, Run, stop, turn, write,
}

clear_row-Steps : (at : ℕ) (o : Option NodeRow) → Steps o (updated any_row (clear_row at) o)
clear_row-Steps at none = tt
clear_row-Steps at (some r) = inl (refl, refl)

-- What was read of a row, as the advancer's lemmas take it.
abbrev seen : NodeRow → NodeSnapshot
seen r = snapshot 0 [] r

invalid_row-Steps :
    (at : ℕ) (node : NodeRow) (o : Option NodeRow)
    → Agrees (seen node) o
    → is_valid node.state invalid ≡ true
    → Steps o (updated (at_version node.version) (invalid_row at) o)
invalid_row-Steps at node none a v = tt
invalid_row-Steps at node (some r) a v = elim (Bool-cases (r.version == node.version)) [
  | inl same ↦ rw same (inr (ground (arith, a.1), refl))
  | inr other ↦ rw other (inl (refl, refl))
]

-- A write that is a step of its own row is a step of each.
write_row-Steps :
    (i : ℕ) (q : NodeRow → Bool) (f : NodeRow → NodeRow) (rows : List NodeRow)
    → ((r : NodeRow) → (f r).id ≡ r.id)
    → Steps (select i rows) (updated q f (select i rows))
    → (j : ℕ) → Steps (select j rows) (select j (write_row i q f rows))
write_row-Steps i q f rows keeps own j =
    rw (select-write_row i j q f rows keeps) (elim (Bool-cases (i == j)) [
      | inl same ↦ let e : i ≡ j = ground arith in rw (same, ← e) own
      | inr other ↦ rw other (Steps-refl (select j rows))
    ])

module _ (env : Env) (i : ℕ) where
  clear_mark-Run : (w : World) → Run env w (clear_mark env i w).1
  clear_mark-Run w =
      let rows = (yield_to env w).nodes in
      turn (
        write (write_row i any_row (clear_row (now env w)) rows)
          (write_row-Steps i any_row (clear_row (now env w)) rows (λ r. refl)
            (clear_row-Steps (now env w) (select i rows)))
          stop)

  module _ (respects : Respects env) (node : NodeRow) where
    still-Agrees :
        (w : World)
        → Agrees (seen node) (select i w.nodes)
        → Agrees (seen node) (select i (yield_to env w).nodes)
    unfolding yield_to
    still-Agrees w a = Agrees-Follows (seen node) _ _ a (respects.each w.awaits w.db i)

    apply_invalid-Run :
        (w : World)
        → Agrees (seen node) (select i w.nodes)
        → Run env w (apply_invalid env i node w).1
    unfolding apply_invalid
    apply_invalid-Run w a = elim (Bool-cases (is_valid node.state invalid)) [
      | inr refused ↦ rw refused (clear_mark-Run w)
      | inl allowed ↦
          let rows = (yield_to env w).nodes in
          let put = invalid_row (now env w) in
          rw allowed (
            turn (
              write (write_row i (at_version node.version) put rows)
                (write_row-Steps i (at_version node.version) put rows (λ r. refl)
                  (invalid_row-Steps (now env w) node (select i rows) (still-Agrees w a) allowed))
                stop))
    ]

    waiting-Run :
        (b : Bool) (w : World)
        → Agrees (seen node) (select i w.nodes)
        → Run env w (apply_invalid env i node (if b then yield_to env w else w)).1
    waiting-Run true w a = turn (apply_invalid-Run (yield_to env w) (still-Agrees w a))
    waiting-Run false w a = apply_invalid-Run w a

  phase2_row-Run :
      (has_agent : Bool) (w : World) (o : Option NodeRow)
      → Respects env
      → select i w.nodes ≡ o
      → Run env w (phase2_row env has_agent i o w).1
  unfolding phase2_row
  phase2_row-Run has_agent w none respects e = stop
  phase2_row-Run has_agent w (some node) respects e =
      let a : Agrees (seen node) (select i w.nodes) = rw e (omega arith, λ _. refl) in
      elim (Bool-cases node.invalidation_pending) [
        | inr idle ↦ rw idle stop
        | inl pending ↦ rw pending (elim (Bool-cases (state_eq node.state skipped)) [
          | inl s ↦ rw s (clear_mark-Run w)
          | inr s ↦
              rw s (waiting-Run respects node (state_eq node.state in_progress && has_agent) w a)
        ])
      ]

-- Whatever the other tasks do by the protocol of the lock, `phase2_apply_invalid` makes only allowed
-- transitions of the rows as they are when it writes.
pub phase2_apply_invalid-Run :
    (env : Env) (has_agent : Bool) (i : ℕ) (w : World)
    → Respects env
    → Run env w (phase2_apply_invalid env has_agent i w).1
unfolding phase2_apply_invalid
phase2_apply_invalid-Run env has_agent i w respects =
    turn (phase2_row-Run env i has_agent (yield_to env w) _ respects refl)
