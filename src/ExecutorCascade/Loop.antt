-- ===== src/ExecutorCascade/Loop.antt =====
-- The cascade that follows a completion, engine/skills/executor_cascade.py: whom it
-- reaches.
use v10_engine.Prelude.{
  ℕ, suc, ◌≡◌, ◌≢◌, refl, sym, ap, subst, ◌∙◌, Bool, true, false, not, Option, none, some, List, [],
  ◌∷◌, arith, Bool-cases, inl, inr, ◌==◌, ==_refl, if◌then◌else◌, any,
}
use v10_engine.StateMachine.{NodeType, invalid, skipped, state_eq, one_of}
use v10_engine.Store.{NodeRow, Text, ChangeType, select}
use v10_engine.Store.Laws.{updated}
use v10_engine.Store.Laws.{id-select}
use v10_engine.Store.World.{World, quiet, yield_to}
use v10_engine.Cascade.{mark_row}
use v10_engine.Cascade.Phase2.{settled_row}
use v10_engine.ExecutorCascade.{
  Classify, is_invalid, is_stale_gate, reopened_gate, is_stale_qa, reopened_qa, invalidate_one,
  cascade_for_node, cascade_each, sections_json,
}
use v10_engine.ExecutorCascade.Rows.{
  own_row, invalidate_one-own, invalidate_one-other, cascade_classified-row,
}
use v10_engine.ExecutorCascade.Trigger.{
  Service, classifier, meaningful_diff, content_of, downstream_rows, trigger_downstream_cascade,
}
use v10_engine.ExecutorCascade.Early.{joins, downstream_found}

abbrev is_skipped : NodeRow → Bool
is_skipped r = state_eq r.state skipped

-- What the two resets make of a row.
unfoldable row_after_resets : ℕ → ℕ → Option NodeRow → NodeRow → NodeRow
row_after_resets ds at o r =
    let r1 = if is_stale_gate o r then reopened_gate at r else r in
    if is_stale_qa ds r1 then reopened_qa at r1 else r1

row_after_resets-live :
    (ds at : ℕ) (o : Option NodeRow) (r : NodeRow)
    → is_skipped r ≡ false
    → is_skipped (row_after_resets ds at o r) ≡ false
unfolding row_after_resets state_eq
row_after_resets-live ds at o r h = ground arith

row_after_resets-invalid :
    (ds at : ℕ) (o : Option NodeRow) (r : NodeRow)
    → is_invalid r ≡ true
    → is_invalid (row_after_resets ds at o r) ≡ true
unfolding row_after_resets is_stale_qa is_stale_gate one_of
row_after_resets-invalid ds at none r h = ground arith
row_after_resets-invalid ds at (some d) r h = ground arith

own_row-invalid :
    (source at at' : ℕ) (change_type : ChangeType) (sections : List Text) (r : NodeRow)
    → is_skipped r ≡ false
    → is_invalid (own_row (mark_row source at change_type sections) at' r) ≡ true
unfolding own_row settled_row one_of
own_row-invalid source at at' change_type sections r live = ground arith

-- A row that is found, and meets p.
abbrev Holds : (NodeRow → Bool) → ℕ → World → Type 0
Holds p j w = (r : NodeRow) × (select j w.nodes ≡ some r) × (p r ≡ true)

abbrev is_live : NodeRow → Bool
is_live r = not (is_skipped r)

live_row : (r : NodeRow) → is_invalid r ≡ true → is_live r ≡ true
unfolding state_eq
live_row r h = ground arith

live_of_invalid : (j : ℕ) (w : World) → Holds is_invalid j w → Holds is_live j w
live_of_invalid j w (r, found, done) = (r, found, live_row r done)

module _ (clock : ℕ → ℕ) (has_advancer : Bool) (classify : Classify) (source j : ℕ) where
  turn : ℕ → NodeType → World → World
  turn ds node_type w = cascade_for_node (quiet clock) has_advancer classify source ds node_type w

  turn-other :
      (ds : ℕ) (node_type : NodeType) (w : World) (r : NodeRow)
      → ds ≢ j
      → select j w.nodes ≡ some r
      → (at : ℕ) × ((o : Option NodeRow) × (select j (turn ds node_type w).nodes
            ≡ some (row_after_resets ds at o r)))
  unfolding turn cascade_for_node yield_to row_after_resets
  turn-other ds node_type w r differ found =
      let c = classify ds node_type in
      let w0 = record w { awaits = suc w.awaits } in
      let at = clock w0.awaits in
      let mark =
        mark_row source at c.change_type (sections_json c.change_type c.affected_sections) in
      let o = select ds (invalidate_one (quiet clock) mark ds w0).nodes in
      (
        at,
        (
          o,
          cascade_classified-row clock has_advancer source ds c.change_type c.affected_sections w0 j
              ∙ ap
                  (λ x.
                    updated (is_stale_qa ds) (reopened_qa at)
                      (updated (is_stale_gate o) (reopened_gate at) x))
                  (invalidate_one-other clock ds mark (λ x. refl) w0 j differ ∙ found),
        ),
      )

  turn-own :
      (node_type : NodeType) (w : World)
      → Holds is_live j w
      → Holds is_invalid j (turn j node_type w)
  unfolding turn cascade_for_node yield_to row_after_resets
  turn-own node_type w (r, found, live) =
      let c = classify j node_type in
      let w0 = record w { awaits = suc w.awaits } in
      let at = clock w0.awaits in
      let sections = sections_json c.change_type c.affected_sections in
      let mark = mark_row source at c.change_type sections in
      let (at', own) = invalidate_one-own clock j mark (λ x. refl) w0 r found in
      let o = select j (invalidate_one (quiet clock) mark j w0).nodes in
      (
        row_after_resets j at o (own_row mark at' r),
        cascade_classified-row clock has_advancer source j c.change_type c.affected_sections w0 j
            ∙ ap
                (λ x.
                  updated (is_stale_qa j) (reopened_qa at)
                    (updated (is_stale_gate o) (reopened_gate at) x))
                own,
        row_after_resets-invalid j at o (own_row mark at' r)
            (own_row-invalid source at at' c.change_type sections r (ground arith)),
      )

  turn-live :
      (ds : ℕ) (node_type : NodeType) (w : World)
      → Holds is_live j w
      → Holds is_live j (turn ds node_type w)
  turn-live ds node_type w (r, found, live) = elim (Bool-cases (ds == j)) [
    | inl same ↦
        let e : ds ≡ j = ground arith in
        subst (λ k. Holds is_live j (turn k node_type w)) (sym e)
          (live_of_invalid j (turn j node_type w) (turn-own node_type w (r, found, live)))
    | inr other ↦
        let (at, (o, there)) = turn-other ds node_type w r (ground arith) found in
        (row_after_resets ds at o r, there, ap not (row_after_resets-live ds at o r (ground arith)))
  ]

  turn-invalid :
      (ds : ℕ) (node_type : NodeType) (w : World)
      → Holds is_invalid j w
      → Holds is_invalid j (turn ds node_type w)
  turn-invalid ds node_type w (r, found, done) = elim (Bool-cases (ds == j)) [
    | inl same ↦
        let e : ds ≡ j = ground arith in
        subst (λ k. Holds is_invalid j (turn k node_type w)) (sym e)
          (turn-own node_type w (live_of_invalid j w (r, found, done)))
    | inr other ↦
        let (at, (o, there)) = turn-other ds node_type w r (ground arith) found in
        (row_after_resets ds at o r, there, row_after_resets-invalid ds at o r done)
  ]

  each-invalid :
      (rows : List NodeRow) (w : World)
      → Holds is_invalid j w
      → Holds is_invalid j (cascade_each (quiet clock) has_advancer classify source rows w)
  unfolding cascade_each turn
  each-invalid [] w h = h
  each-invalid (x ∷ rows) w h =
      each-invalid rows (turn x.id x.node_type w) (turn-invalid x.id x.node_type w h)

  each-reaches :
      (rows : List NodeRow) (w : World)
      → Holds is_live j w
      → any (λ x. x.id == j) rows ≡ true
      → Holds is_invalid j (cascade_each (quiet clock) has_advancer classify source rows w)
  unfolding cascade_each turn
  each-reaches [] w h m = absurd (ground arith)
  each-reaches (x ∷ rows) w h m = elim (Bool-cases (x.id == j)) [
    | inl own ↦
        let e : x.id ≡ j = ground arith in
        each-invalid rows (turn x.id x.node_type w) (
          subst (λ k. Holds is_invalid j (turn k x.node_type w)) (sym e) (turn-own x.node_type w h))
    | inr other ↦
        each-reaches rows (turn x.id x.node_type w) (turn-live x.id x.node_type w h) (ground arith)
  ]

-- A change with something in it reaches every node below an active edge that is not SKIPPED: it is
-- INVALID when the loop over the neighbours has ended, whatever state it was in and whatever the
-- turns of the other neighbours have set back. No other task writes meanwhile.
pub trigger_downstream_cascade-reaches :
    (s : Service) (clock : ℕ → ℕ) (i j : ℕ) (newest before : Option Text)
    (versions : List (Option Text)) (w : World) (diff : Text) (r : NodeRow)
    → meaningful_diff s (content_of before) (content_of newest) ≡ some diff
    → any (joins i j) w.edges ≡ true
    → select j w.nodes ≡ some r
    → state_eq r.state skipped ≡ false
    → (r' : NodeRow) × (select j
          (trigger_downstream_cascade s (quiet clock) i (newest ∷ before ∷ versions) w).nodes
        ≡ some r')
      × (state_eq r'.state invalid ≡ true)
unfolding trigger_downstream_cascade yield_to
trigger_downstream_cascade-reaches s clock i j newest before versions w diff r changed joined found
      live =
    let w2 = record w { awaits = suc (suc w.awaits) } in
    rw changed (
      each-reaches clock s.has_advancer (classifier s diff (content_of before)) i j
        (downstream_rows i w.edges w.nodes) w2 (r, found, ap not live)
        (downstream_found (λ x. x.id == j) i j w.edges w.nodes r found
          (rw (id-select j w.nodes found) (==_refl j)) joined))
