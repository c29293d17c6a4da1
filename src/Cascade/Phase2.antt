-- ===== src/Cascade/Phase2.antt =====
-- What `phase2_apply_invalid` of engine/core/cascade.py leaves of the table while no other task
-- writes.
use v10_engine.Prelude.{
  ℕ, suc, ◌≡◌, refl, sym, subst, ◌||◌, ◌∙◌, ap, Bool, true, false, not, ◌&&◌, some, [], ◌∷◌, arith,
  ==_refl, if◌then◌else◌, Bool-cases, inl, inr,
}
use v10_engine.StateMachine.{NodeState, invalid, skipped, in_progress, state_eq, one_of, is_valid}
use v10_engine.StateMachine.Graph.{is_valid-invalid}
use v10_engine.Store.{NodeRow, any_row, at_version, select}
use v10_engine.Store.Laws.{updated, select-write_row_self, rows_affected-eq-hits}
use v10_engine.Store.World.{World, Env, quiet, yield_to}
use v10_engine.Cascade.{
  clear_row, invalid_row, clear_mark, apply_invalid, phase2_row, phase2_apply_invalid,
}

-- The states that no cascade takes to INVALID.
abbrev resists : NodeState → Bool
resists = one_of (invalid ∷ skipped ∷ [])

unfoldable pub settled_row : ℕ → NodeRow → NodeRow
unfolding one_of
settled_row at r =
    if not r.invalidation_pending
    then r
    else if resists r.state
    then clear_row at r
    else invalid_row at r

-- Whether the row is taken to INVALID.
unfoldable pub is_due : NodeRow → Bool
unfolding one_of
is_due r = r.invalidation_pending && not (resists r.state)

-- A call at the row r has the result that it should, and leaves the row that it should.
abbrev pub Settles : ℕ → NodeRow → Bool × World → Type 0
Settles i r run = (run.0 ≡ is_due r) × ((at : ℕ) × (select i run.1.nodes ≡ some (settled_row at r)))

due_cases :
    (r : NodeRow)
    → r.invalidation_pending ≡ true
    → state_eq r.state skipped ≡ false
    → is_valid r.state invalid ≡ true
    → (is_due r ≡ true) × ((at : ℕ) → settled_row at r ≡ invalid_row at r)
unfolding is_due settled_row
due_cases r pending live valid =
    (ground (arith, is_valid-invalid r.state), λ at. ground (arith, is_valid-invalid r.state))

kept_cases :
    (r : NodeRow)
    → r.invalidation_pending ≡ true
    → (state_eq r.state invalid || state_eq r.state skipped) ≡ true
    → (is_due r ≡ false) × ((at : ℕ) → settled_row at r ≡ clear_row at r)
unfolding is_due settled_row
kept_cases r pending kept = (ground arith, λ at. ground arith)

module _ (clock : ℕ → ℕ) (i : ℕ) (r : NodeRow) where
  clear_mark-Settles :
      (w : World)
      → select i w.nodes ≡ some r
      → r.invalidation_pending ≡ true
      → (state_eq r.state invalid || state_eq r.state skipped) ≡ true
      → Settles i r (clear_mark (quiet clock) i w)
  unfolding yield_to
  clear_mark-Settles w found pending kept =
      let (still, row) = kept_cases r pending kept in
      (
        sym still,
        (
          clock w.awaits,
          select-write_row_self i any_row (clear_row (clock w.awaits)) w.nodes (λ x. refl)
              ∙ ap (updated any_row (clear_row (clock w.awaits))) found
              ∙ ap some (sym (row (clock w.awaits))),
        ),
      )

  apply_invalid-Settles :
      (w : World)
      → select i w.nodes ≡ some r
      → r.invalidation_pending ≡ true
      → state_eq r.state skipped ≡ false
      → Settles i r (apply_invalid (quiet clock) i r w)
  unfolding apply_invalid yield_to
  apply_invalid-Settles w found pending live = elim (Bool-cases (is_valid r.state invalid)) [
    | inr refused ↦
        rw refused (clear_mark-Settles w found pending (ground (arith, is_valid-invalid r.state)))
    | inl allowed ↦
        let write = invalid_row (clock w.awaits) in
        let (moves, row) = due_cases r pending live allowed in
        rw allowed (
          rw (rows_affected-eq-hits i (at_version r.version) w.nodes, found, ==_refl r.version)
              (sym moves),
          (
            clock w.awaits,
            select-write_row_self i (at_version r.version) write w.nodes (λ x. refl)
                ∙ ap (updated (at_version r.version) write) found
                ∙ rw (==_refl r.version) (ap some (sym (row (clock w.awaits)))),
          ),
        )
  ]

idle_cases :
    (r : NodeRow) → r.invalidation_pending ≡ false → (is_due r ≡ false) × (settled_row 0 r ≡ r)
unfolding is_due settled_row
idle_cases r idle = (ground arith, ground arith)

module _ (env : Env) (has_agent : Bool) (i : ℕ) (r : NodeRow) (w : World) where
  phase2_row_idle :
      r.invalidation_pending ≡ false → phase2_row env has_agent i (some r) w ≡ (false, w)
  unfolding phase2_row
  phase2_row_idle idle = rw idle refl

  phase2_row_skipped :
      r.invalidation_pending ≡ true
      → state_eq r.state skipped ≡ true
      → phase2_row env has_agent i (some r) w ≡ clear_mark env i w
  unfolding phase2_row
  phase2_row_skipped pending s = rw (pending, s) refl

  phase2_row_live :
      r.invalidation_pending ≡ true
      → state_eq r.state skipped ≡ false
      → phase2_row env has_agent i (some r) w
        ≡ apply_invalid env i r
            (if state_eq r.state in_progress && has_agent then yield_to env w else w)
  unfolding phase2_row
  phase2_row_live pending s = ground (arith, pending, s)

yield_to-quiet :
    (clock : ℕ → ℕ) (b : Bool) (w : World)
    → (if b then yield_to (quiet clock) w else w).nodes ≡ w.nodes
unfolding yield_to
yield_to-quiet clock true w = refl
yield_to-quiet clock false w = refl

-- A call without other tasks: a row that is not pending is left alone, an INVALID or SKIPPED one
-- loses its mark only, and every other pending one is INVALID, its version raised.
pub phase2_apply_invalid-Settles :
    (clock : ℕ → ℕ) (has_agent : Bool) (i : ℕ) (w : World) (r : NodeRow)
    → select i w.nodes ≡ some r
    → Settles i r (phase2_apply_invalid (quiet clock) has_agent i w)
unfolding phase2_apply_invalid yield_to
phase2_apply_invalid-Settles clock has_agent i w r found =
    let env = quiet clock in
    let w' = record w { awaits = suc w.awaits } in
    let waits = state_eq r.state in_progress && has_agent in
    rw found (elim (Bool-cases r.invalidation_pending) [
      | inr idle ↦
          let (still, row) = idle_cases r idle in
          subst (Settles i r) (sym (phase2_row_idle env has_agent i r w' idle))
            (sym still, (0, found ∙ ap some (sym row)))
      | inl pending ↦ elim (Bool-cases (state_eq r.state skipped)) [
        | inl s ↦
            subst (Settles i r) (sym (phase2_row_skipped env has_agent i r w' pending s))
              (clear_mark-Settles clock i r w' found pending (ground arith))
        | inr s ↦ subst (Settles i r) (sym (phase2_row_live env has_agent i r w' pending s)) (
            apply_invalid-Settles clock i r (if waits then yield_to env w' else w')
              (ap (select i) (yield_to-quiet clock waits w') ∙ found) pending s)
      ]
    ])
