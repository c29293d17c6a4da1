-- ===== src/StateStore/Examples.antt =====
-- Examples for engine/core/state_store.py.
use v10_engine.Prelude.{◌≡◌, refl, false, not, ◌&&◌, none, List, [], ◌∷◌, elem}
use v10_engine.Prelude.Text.{codes}
use v10_engine.StateStore.{
  ItemKey, AtomicRow, fresh_row, failed, complete, reserve, list_incomplete, get_status,
  select_item, same_key,
}
use v10_engine.StateStore.Refinement.{reserve_call, complete_call, fail_call, view}
use v10_engine.StateStore.History.{Event, run, run_abstract, run-refines}
use v10_engine.StateStore.Exclusive.{
  reserved_until_failed, list_incomplete_exact, is_done_status, key_at,
}

abbrev first : ItemKey
first = key_at 1 2 3

abbrev table : List AtomicRow
table = fresh_row first failed none 5 ∷ fresh_row (key_at 1 2 4) complete none 6 ∷ []

abbrev history : List Event
history =
    record { time = 7; on = first; call = reserve_call }
    ∷ record { time = 8; on = first; call = complete_call none }
    ∷ record { time = 9; on = key_at 1 2 4; call = fail_call (codes "late") }
    ∷ []

run-refines_example :
    ((run history table).0 ≡ (run_abstract history (view table)).0)
    × (view (run history table).1 ≡ (run_abstract history (view table)).1)
run-refines_example = run-refines history table

reserved_until_failed_example :
    (reserve (λ rows. rows) 10 first (run history (reserve (λ rows. rows) 6 first table).1).1).0
    ≡ false
unfolding same_key reserve
reserved_until_failed_example = reserved_until_failed 6 10 first history table refl refl

list_incomplete_exact_example :
    elem 3 (list_incomplete 1 2 (3 ∷ 4 ∷ []) table)
    ≡ (elem 3 (3 ∷ 4 ∷ []) && not (is_done_status (get_status (key_at 1 2 3) table)))
unfolding select_item same_key
list_incomplete_exact_example = list_incomplete_exact 1 2 3 (3 ∷ 4 ∷ []) table (refl, (refl, tt))
