-- ===== src/StateStore/History.antt =====
-- Histories of calls of AtomicStateStore (engine/core/state_store.py).
use v10_engine.Prelude.{
  ℕ, ◌≡◌, refl, ap, sym, ◌∙◌, inl, inr, Bool, true, Option, none, some, List, [], ◌∷◌, ◌++◌,
  if◌then◌else◌, Option-cases,
}
use mathlib.Core.Path.{fun_ext}
use v10_engine.Store.{Text}
use v10_engine.StateStore.{
  reserved, ItemKey, AtomicRow, same_key, select_item, update_item, insert_item, reserve,
  reserve_new, mark_complete, fail, mark_needs_human, mark_skipped, fresh_row,
}
use v10_engine.StateStore.Refinement.{
  Entry, entry_of, view, Call, reserve_call, complete_call, fail_call, human_call, skip_call, exec,
  moves, Refines, found_none, found_some, write-Refines, reserve_found-Refines, view-append,
}

module _ (at : ℕ) (k : ItemKey) (rows : List AtomicRow) where
  pub reserve-Refines :
      let p = reserve (λ rows. rows) at k rows in Refines k reserve_call rows (some p.0, p.1)
  unfolding reserve reserve_new insert_item
  reserve-Refines = elim (Option-cases (select_item k rows)) [
    | inr (r, e) ↦ rw (e, reserve) (reserve_found-Refines at k rows r r.status e refl)
    | inl e ↦
        let q : reserve_new at k rows ≡ (true, rows ++ fresh_row k reserved none at ∷ []) =
          rw (e, reserve_new) refl in
        rw (e, reserve)
          (rw q (record {
            reply = rw (found_none at k rows e) refl;
            entries = λ j. view-append j _ rows e ∙ rw (found_none at k rows e) refl;
          }))
  ]

  skip-Refines :
      (reason : Text) → Refines k (skip_call reason) rows (none, mark_skipped at k reason rows)
  unfolding mark_skipped insert_item
  skip-Refines reason = elim (Option-cases (select_item k rows)) [
    | inr (r, e) ↦
        rw (e, mark_skipped, insert_item)
          (write-Refines at k rows (skip_call reason) _ (λ r. refl)
            (rw (found_some at k rows r e, e) refl) (rw (found_some at k rows r e) refl))
    | inl e ↦
        rw (e, mark_skipped, insert_item)
          (record {
            reply = rw (found_none at k rows e) refl;
            entries = λ j. view-append j _ rows e ∙ rw (found_none at k rows e) refl;
          })
  ]

  update-Refines :
      (c : Call) (f : AtomicRow → AtomicRow)
      → ((r : AtomicRow) → (f r).key ≡ r.key)
      → (moves c none ≡ (none, none))
      → ((r : AtomicRow) → moves c (entry_of (some r)) ≡ (none, entry_of (some (f r))))
      → Refines k c rows (none, update_item k f rows)
  update-Refines c f keeps absent present = elim (Option-cases (select_item k rows)) [
    | inr (r, e) ↦
        let m : moves c (view rows k) ≡ (none, entry_of (some (f r))) =
          ap (moves c) (found_some at k rows r e) ∙ present r in
        write-Refines at k rows c f keeps (rw e (sym (ap (λ p. p.1) m))) (sym (ap (λ p. p.0) m))
    | inl e ↦
        let m : moves c (view rows k) ≡ (none, none) =
          ap (moves c) (found_none at k rows e) ∙ absent in
        write-Refines at k rows c f keeps (rw e (sym (ap (λ p. p.1) m))) (sym (ap (λ p. p.0) m))
  ]

-- Each call of the code does to each item, and answers, what the state machine of one item says.
pub exec-Refines :
    (at : ℕ) (k : ItemKey) (c : Call) (rows : List AtomicRow) → Refines k c rows (exec at k c rows)
unfolding exec mark_complete fail mark_needs_human
exec-Refines at k reserve_call rows = reserve-Refines at k rows
exec-Refines at k (complete_call hash) rows =
    update-Refines at k rows (complete_call hash) _ (λ r. refl) refl (λ r. refl)
exec-Refines at k (fail_call reason) rows =
    update-Refines at k rows (fail_call reason) _ (λ r. refl) refl (λ r. refl)
exec-Refines at k (human_call reason) rows =
    update-Refines at k rows (human_call reason) _ (λ r. refl) refl (λ r. refl)
exec-Refines at k (skip_call reason) rows = skip-Refines at k rows reason

pub record Event : Type 0 where
  pub time : ℕ
  pub on : ItemKey
  pub call : Call

unfoldable pub run : List Event → List AtomicRow → List (Option Bool) × List AtomicRow
unfolding exec
run [] rows = ([], rows)
run (e ∷ events) rows =
    let (reply, rows') = exec e.time e.on e.call rows in
    let (replies, rows'') = run events rows' in (reply ∷ replies, rows'')

-- The abstract store, which has an entry for each key and no rows.
unfoldable pub run_abstract :
    List Event → (ItemKey → Option Entry) → List (Option Bool) × (ItemKey → Option Entry)
run_abstract [] s = ([], s)
run_abstract (e ∷ events) s =
    let (reply, entry) = moves e.call (s e.on) in
    let (replies, s') = run_abstract events (λ j. if same_key e.on j then entry else s j) in
    (reply ∷ replies, s')

-- Over any history of calls of one process the table answers as the abstract store answers, and shows
-- the entries that the abstract store has.
pub run-refines :
    (events : List Event) (rows : List AtomicRow)
    → ((run events rows).0 ≡ (run_abstract events (view rows)).0)
      × (view (run events rows).1 ≡ (run_abstract events (view rows)).1)
unfolding run run_abstract
run-refines [] rows = (refl, refl)
run-refines (e ∷ events) rows =
    let r = exec-Refines e.time e.on e.call rows in
    let (replies, entries) = run-refines events (exec e.time e.on e.call rows).1 in
    let s = fun_ext r.entries in
    (
      (λ i. r.reply i ∷ (replies ∙ ap (λ v. (run_abstract events v).0) s) i),
      entries ∙ ap (λ v. (run_abstract events v).1) s,
    )
