-- ===== src/StateStore/Exclusive.antt =====
-- Who may work on an item of AtomicStateStore (engine/core/state_store.py), and what is left to do.
use v10_engine.Prelude.{
  ℕ, ◌≡◌, refl, ap, sym, ◌∙◌, inl, inr, Bool, true, false, not, ◌&&◌, ◌||◌, Option, none, some,
  List, [], ◌∷◌, arith, any, elem, keep, ◌==◌, Bool-cases,
}
use v10_engine.StateStore.{
  Status, ItemKey, AtomicRow, same_key, select_item, reserve, of_node, is_done, is_done_item,
  list_incomplete, get_status,
}
use v10_engine.StateStore.Refinement.{
  Entry, view, Call, reserve_call, complete_call, fail_call, human_call, skip_call, exec, is_free,
  moves, same_key_refl, eq_of_same_key,
}
use v10_engine.StateStore.History.{Event, run, exec-Refines, reserve-Refines}

-- An item that `reserve` refuses.
abbrev Held : Option Entry → Type 0
Held none = ⊥
Held (some e) = is_free e.at_status ≡ false

abbrev is_fail : Call → Bool
is_fail (fail_call _) = true
is_fail _ = false

abbrev pub fails : ItemKey → Event → Bool
fails k e = same_key e.on k && is_fail e.call

reserved-Held :
    (o : Option Entry) → (moves reserve_call o).0 ≡ some true → Held (moves reserve_call o).1
reserved-Held none h = refl
reserved-Held (some e) h = ground (arith, h)

moves-Held : (c : Call) (o : Option Entry) → is_fail c ≡ false → Held o → Held (moves c o).1
moves-Held c none f h = absurd h
moves-Held reserve_call (some e) f h = rw h h
moves-Held (complete_call t) (some e) f h = refl
moves-Held (fail_call t) (some e) f h = cc
moves-Held (human_call t) (some e) f h = refl
moves-Held (skip_call t) (some e) f h = refl

refuses-Held : (o : Option Entry) → Held o → (moves reserve_call o).0 ≡ some false
refuses-Held none h = absurd h
refuses-Held (some e) h = rw h refl

run-Held :
    (k : ItemKey) (events : List Event) (rows : List AtomicRow)
    → any (fails k) events ≡ false
    → Held (view rows k)
    → Held (view (run events rows).1 k)
unfolding run
run-Held k [] rows f h = h
run-Held k (e ∷ events) rows f h =
    let next = (exec e.time e.on e.call rows).1 in
    let entries = (exec-Refines e.time e.on e.call rows).entries k in
    run-Held k events next (ground (arith, f)) (elim (Bool-cases (same_key e.on k)) [
      | inr other ↦ rw (rw other at entries) h
      | inl same ↦
          let at_k : view rows e.on ≡ view rows k = ap (view rows) (eq_of_same_key e.on k same) in
          rw (rw (same, at_k) at entries)
            (moves-Held e.call (view rows k) (ground (arith, f, same)) h)
    ])

-- Once `reserve` has given an item away, it refuses the item to whoever asks, whatever calls of the
-- same process come in between, until one of them reports that the item failed.
pub reserved_until_failed :
    (at at' : ℕ) (k : ItemKey) (events : List Event) (rows : List AtomicRow)
    → (reserve (λ rows. rows) at k rows).0 ≡ true
    → any (fails k) events ≡ false
    → (reserve (λ rows. rows) at' k (run events (reserve (λ rows. rows) at k rows).1).1).0 ≡ false
reserved_until_failed at at' k events rows given quiet =
    let first = reserve-Refines at k rows in
    let later = (run events (reserve (λ rows. rows) at k rows).1).1 in
    let entry = rw (same_key_refl k) at (first.entries k) in
    let held : Held (view (reserve (λ rows. rows) at k rows).1 k) =
      rw entry (reserved-Held (view rows k) (sym first.reply ∙ ap some given)) in
    let answer =
      (reserve-Refines at' k later).reply
      ∙ refuses-Held (view later k) (run-Held k events _ quiet held) in
    cc

-- The primary key of the table.
abbrev pub HasItemKey : List AtomicRow → Type 0
HasItemKey [] = Unit
HasItemKey (r ∷ rows) = (select_item r.key rows ≡ none) × HasItemKey rows

abbrev pub is_done_status : Option Status → Bool
is_done_status none = false
is_done_status (some s) = is_done s

abbrev pub key_at : ℕ → ℕ → ℕ → ItemKey
key_at engagement node i = record { engagement = engagement; node = node; item = i }

or_false : (a b : Bool) → b ≡ false → (a || b) ≡ a
or_false true b h = refl
or_false false b h = h

elem-keep : (i : ℕ) (p : ℕ → Bool) (xs : List ℕ) → elem i (keep p xs) ≡ (elem i xs && p i)
elem-keep i p [] = refl
elem-keep i p (x ∷ xs) = elim (Bool-cases (x == i)) [
  | inl same ↦
      let e : x ≡ i = ground arith in
      rw e (elim (Bool-cases (p i)) [
        | inl yes_p ↦ rw yes_p (ground arith)
        | inr no_p ↦ rw no_p (elem-keep i p xs ∙ ground (arith, no_p))
      ])
  | inr other ↦ elim (Bool-cases (p x)) [
    | inl yes_p ↦ rw (yes_p, other) (elem-keep i p xs)
    | inr no_p ↦ rw (no_p, other) (elem-keep i p xs)
  ]
]

module _ (engagement node i : ℕ) where
  same_key_parts :
      (r : AtomicRow) (b : Bool)
      → (of_node engagement node r && b && r.key.item == i)
        ≡ (same_key r.key (key_at engagement node i) && b)
  unfolding of_node same_key
  same_key_parts r b = ground arith

  none_done :
      (rows : List AtomicRow)
      → select_item (key_at engagement node i) rows ≡ none
      → is_done_item engagement node rows i ≡ false
  unfolding is_done_item select_item
  none_done [] h = refl
  none_done (r ∷ rows) h = elim (Bool-cases (same_key r.key (key_at engagement node i))) [
    | inl e ↦ absurd (ground (arith, h, e))
    | inr e ↦ rw (same_key_parts r (is_done r.status), e) (none_done rows (rw e at h))
  ]

  is_done_item_lem :
      (rows : List AtomicRow)
      → HasItemKey rows
      → is_done_item engagement node rows i
        ≡ is_done_status (get_status (key_at engagement node i) rows)
  unfolding is_done_item select_item
  is_done_item_lem [] key = refl
  is_done_item_lem (r ∷ rows) key = elim (Bool-cases (same_key r.key (key_at engagement node i))) [
    | inl e ↦
        let gone = rw (eq_of_same_key r.key (key_at engagement node i) e) at key.0 in
        rw (same_key_parts r (is_done r.status), e)
          (or_false (is_done r.status) _ (none_done rows gone))
    | inr e ↦ rw (same_key_parts r (is_done r.status), e) (is_done_item_lem rows key.1)
  ]

-- Under the primary key an expected item is listed as incomplete exactly when it has no row, or its
-- status is neither COMPLETE nor SKIPPED.
pub list_incomplete_exact :
    (engagement node i : ℕ) (expected : List ℕ) (rows : List AtomicRow)
    → HasItemKey rows
    → elem i (list_incomplete engagement node expected rows)
      ≡ (elem i expected && not (is_done_status (get_status (key_at engagement node i) rows)))
unfolding list_incomplete
list_incomplete_exact engagement node i expected rows key =
    elem-keep i (λ i. not (is_done_item engagement node rows i)) expected
    ∙ ap (λ b. elem i expected && not b) (is_done_item_lem engagement node i rows key)
