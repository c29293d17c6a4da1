-- ===== src/ExecutorCascade/Early.antt =====
-- What `_invalidate_early_completed_downstreams` of engine/skills/executor_cascade.py leaves of the
-- nodes that were completed before the one above them.
use v10_engine.Prelude.{
  ℕ, suc, ◌≡◌, refl, ap, ◌∙◌, Bool, true, false, ◌&&◌, Option, none, some, List, [], ◌∷◌, arith,
  Bool-cases, inl, inr, ◌==◌, ==_refl, if◌then◌else◌, any, keep,
}
use v10_engine.StateMachine.{state_eq}
use v10_engine.Store.{NodeRow, Edge, select, write_row, write_where}
use v10_engine.Store.Laws.{updated, select-write_row, select-write_where, id-select}
use v10_engine.Store.World.{World, quiet, yield_to}
use v10_engine.ExecutorCascade.{
  statement, is_completed, early_row, is_live_pair, restarted_row, is_stale_gate, reopened_gate,
  invalidate_early, invalidate_each,
}
use v10_engine.ExecutorCascade.Rows.{statement-quiet}
use v10_engine.ExecutorCascade.Trigger.{
  found_row, downstream_rows, is_early, invalidate_early_completed_downstreams,
}

-- The three statements of one turn of the loop, on one row.
unfoldable step_row : ℕ → ℕ → NodeRow → ℕ → NodeRow → NodeRow
step_row source at ds j r =
    let r1 = if ds.id == j && is_completed r then early_row source at r else r in
    let r2 = if is_live_pair ds.id r1 then restarted_row at r1 else r1 in
    if is_stale_gate (some ds) r2 then reopened_gate at r2 else r2

own_write :
    (source at : ℕ) (ds : NodeRow) (j : ℕ) (r : NodeRow) (rows : List NodeRow)
    → select j rows ≡ some r
    → select j (write_row ds.id is_completed (early_row source at) rows)
      ≡ some (if ds.id == j && is_completed r then early_row source at r else r)
own_write source at ds j r rows found =
    select-write_row ds.id j is_completed (early_row source at) rows (λ x. refl)
    ∙ elim (Bool-cases (ds.id == j)) [
      | inl same ↦
          let e : ds.id ≡ j = ground arith in
          rw same
            (ap (updated is_completed (early_row source at)) (ap (λ k. select k rows) e ∙ found))
      | inr other ↦ rw other found
    ]

module _ (clock : ℕ → ℕ) (source at : ℕ) where
  invalidate_early-row :
      (ds : NodeRow) (j : ℕ) (r : NodeRow) (w : World)
      → select j w.nodes ≡ some r
      → select j (invalidate_early (quiet clock) source at ds w).nodes
        ≡ some (step_row source at ds j r)
  unfolding invalidate_early step_row
  invalidate_early-row ds j r w found =
      let env = quiet clock in
      let w1 = statement env (write_row ds.id is_completed (early_row source at)) w in
      let w2 = statement env (write_where (is_live_pair ds.id) (restarted_row at)) w1 in
      let gates = is_stale_gate (some ds) in
      ap (select j) (statement-quiet clock (write_where gates (reopened_gate at)) w2)
      ∙ select-write_where j gates (reopened_gate at) w2.nodes (λ x. refl)
      ∙ ap (updated gates (reopened_gate at)) (
          ap (select j)
            (statement-quiet clock (write_where (is_live_pair ds.id) (restarted_row at)) w1)
          ∙ select-write_where j (is_live_pair ds.id) (restarted_row at) w1.nodes (λ x. refl)
          ∙ ap (updated (is_live_pair ds.id) (restarted_row at)) (
              ap (select j)
                (statement-quiet clock (write_row ds.id is_completed (early_row source at)) w)
              ∙ own_write source at ds j r w.nodes found))

step_row-version :
    (source at : ℕ) (ds : NodeRow) (j : ℕ) (r : NodeRow)
    → (step_row source at ds j r).version ≡ r.version
unfolding step_row
step_row-version source at ds j r = ground arith

step_row-open :
    (source at : ℕ) (ds : NodeRow) (j : ℕ) (r : NodeRow)
    → is_completed r ≡ false
    → is_completed (step_row source at ds j r) ≡ false
unfolding step_row state_eq
step_row-open source at ds j r h = ground arith

step_row-own :
    (source at : ℕ) (ds : NodeRow) (j : ℕ) (r : NodeRow)
    → (ds.id == j) ≡ true
    → is_completed (step_row source at ds j r) ≡ false
unfolding step_row state_eq
step_row-own source at ds j r h = ground arith

-- A row that is no longer COMPLETED, and whose version is what it was.
pub record Reopened (r r' : NodeRow) : Type 0 where
  pub not_completed : is_completed r' ≡ false
  pub same_version : r'.version ≡ r.version

module _ (clock : ℕ → ℕ) (source at j : ℕ) where
  -- Once the row is not COMPLETED, no turn of the loop makes it so.
  invalidate_each-open :
      (rows : List NodeRow) (w : World) (r : NodeRow)
      → select j w.nodes ≡ some r
      → is_completed r ≡ false
      → (r' : NodeRow) × (select j (invalidate_each (quiet clock) source at rows w).nodes ≡ some r')
        × Reopened r r'
  unfolding invalidate_each
  invalidate_each-open [] w r found free =
      (r, found, record { not_completed = free; same_version = refl })
  invalidate_each-open (ds ∷ rows) w r found free =
      let (r', there, again) =
        invalidate_each-open rows (invalidate_early (quiet clock) source at ds w)
          (step_row source at ds j r) (invalidate_early-row clock source at ds j r w found)
          (step_row-open source at ds j r free) in
      (
        r',
        there,
        record {
          not_completed = again.not_completed;
          same_version = again.same_version ∙ step_row-version source at ds j r;
        },
      )

  invalidate_each-Reopened :
      (rows : List NodeRow) (w : World) (r : NodeRow)
      → select j w.nodes ≡ some r
      → any (λ x. x.id == j) rows ≡ true
      → (r' : NodeRow) × (select j (invalidate_each (quiet clock) source at rows w).nodes ≡ some r')
        × Reopened r r'
  unfolding invalidate_each
  invalidate_each-Reopened [] w r found h = absurd (ground arith)
  invalidate_each-Reopened (ds ∷ rows) w r found h =
      let w1 = invalidate_early (quiet clock) source at ds w in
      let r1 = step_row source at ds j r in
      let found1 = invalidate_early-row clock source at ds j r w found in
      let (r', there, again) =
        elim (Bool-cases (ds.id == j))
          as (λ _.
            (r' : NodeRow) × (select j (invalidate_each (quiet clock) source at rows w1).nodes
              ≡ some r')
            × Reopened r1 r') [
              | inl own ↦ invalidate_each-open rows w1 r1 found1 (step_row-own source at ds j r own)
              | inr other ↦ invalidate_each-Reopened rows w1 r1 found1 (ground arith)
            ] in
      (
        r',
        there,
        record {
          not_completed = again.not_completed;
          same_version = again.same_version ∙ step_row-version source at ds j r;
        },
      )

-- The query finds each early node below an active edge.
abbrev pub joins : ℕ → ℕ → Edge → Bool
joins i j e = e.from_node_id == i && e.to_node_id == j && e.is_active

found_row-any :
    (p : NodeRow → Bool) (o : Option NodeRow) (rest : List NodeRow)
    → any p rest ≡ true
    → any p (found_row o rest) ≡ true
found_row-any p none rest h = h
found_row-any p (some x) rest h = ground arith

pub downstream_found :
    (p : NodeRow → Bool) (i j : ℕ) (edges : List Edge) (rows : List NodeRow) (r : NodeRow)
    → select j rows ≡ some r
    → p r ≡ true
    → any (joins i j) edges ≡ true
    → any p (downstream_rows i edges rows) ≡ true
unfolding downstream_rows
downstream_found p i j [] rows r found met h = absurd (ground arith)
downstream_found p i j (e ∷ edges) rows r found met h =
    let rest = downstream_rows i edges rows in
    elim (Bool-cases (joins i j e)) [
      | inl joined ↦
          let to : e.to_node_id ≡ j = ground arith in
          let active : (e.from_node_id == i && e.is_active) ≡ true = ground arith in
          rw (active, to, found, met) refl
      | inr apart ↦
          let later = downstream_found p i j edges rows r found met (ground arith) in
          elim (Bool-cases (e.from_node_id == i && e.is_active)) [
            | inl active ↦ rw active (found_row-any p (select e.to_node_id rows) rest later)
            | inr idle ↦ rw idle later
          ]
    ]

any-keep :
    (p q : NodeRow → Bool) (rows : List NodeRow)
    → any (λ x. p x && q x) rows ≡ true
    → any p (keep q rows) ≡ true
any-keep p q [] h = h
any-keep p q (x ∷ rows) h = ground (arith, any-keep p q rows)

-- No node that was completed before the one above it, which now is for the first time, stays
-- COMPLETED; but its version is not raised. No other task writes meanwhile.
pub invalidate_early_completed_downstreams-Reopened :
    (clock : ℕ → ℕ) (i j : ℕ) (w : World) (r : NodeRow)
    → select j w.nodes ≡ some r
    → is_early (clock w.awaits) r ≡ true
    → any (joins i j) w.edges ≡ true
    → (r' : NodeRow) × (select j (invalidate_early_completed_downstreams (quiet clock) i w).nodes
        ≡ some r')
      × Reopened r r'
unfolding invalidate_early_completed_downstreams yield_to
invalidate_early_completed_downstreams-Reopened clock i j w r found early joined =
    let at = clock w.awaits in
    invalidate_each-Reopened clock i at j (keep (is_early at) (downstream_rows i w.edges w.nodes))
      (record w { awaits = suc w.awaits }) r found
      (any-keep (λ x. x.id == j) (is_early at) (downstream_rows i w.edges w.nodes)
        (downstream_found (λ x. x.id == j && is_early at x) i j w.edges w.nodes r found
          (rw (id-select j w.nodes found, ==_refl j) early) joined))
