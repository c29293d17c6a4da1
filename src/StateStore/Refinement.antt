-- ===== src/StateStore/Refinement.antt =====
-- AtomicStateStore (engine/core/state_store.py) against an abstract store: a function from keys to
-- entries, in which each call moves the entry of its own key along a small state machine.
use v10_engine.Prelude.{
  ℕ, suc, ◌≡◌, refl, ap, sym, ◌∙◌, inl, inr, Bool, true, false, Option, none, some, List, [], ◌∷◌,
  ◌++◌, arith, if◌then◌else◌, Bool-cases,
}
use v10_engine.Prelude.Text.{take}
use v10_engine.Store.{Text}
use v10_engine.StateStore.{
  Status, pending, reserved, complete, failed, needs_human, skipped, ItemKey, AtomicRow, same_key,
  select_item, update_item, reserve, reserve_found, mark_complete, fail, mark_needs_human,
  mark_skipped,
}

-- What the store promises to keep of an item: no times, no place in the table.
pub record Entry : Type 0 where
  pub at_status : Status
  pub retries : ℕ
  pub hash : Option Text
  pub why : Option Text

abbrev pub entry_of : Option AtomicRow → Option Entry
entry_of none = none
entry_of (some r) = some (record {
  at_status = r.status;
  retries = r.retry_count;
  hash = r.artifact_hash;
  why = r.reason;
})

unfoldable pub view : List AtomicRow → ItemKey → Option Entry
view rows k = entry_of (select_item k rows)

pub data Call : Type 0 where
  reserve_call : Call
  complete_call : Option Text → Call
  fail_call : Text → Call
  human_call : Text → Call
  skip_call : Text → Call

-- The code of a call, at a time, on a key, with no other process; the reply is that of `reserve`.
unfoldable pub exec : ℕ → ItemKey → Call → List AtomicRow → Option Bool × List AtomicRow
exec at k reserve_call rows = let p = reserve (λ rows. rows) at k rows in (some p.0, p.1)
exec at k (complete_call hash) rows = (none, mark_complete at k hash rows)
exec at k (fail_call reason) rows = (none, fail at k reason rows)
exec at k (human_call reason) rows = (none, mark_needs_human at k reason rows)
exec at k (skip_call reason) rows = (none, mark_skipped at k reason rows)

abbrev pub is_free : Status → Bool
is_free pending = true
is_free failed = true
is_free _ = false

-- The state machine of one item.
abbrev pub moves : Call → Option Entry → Option Bool × Option Entry
moves reserve_call none =
    (some true, some (record { at_status = reserved; retries = 0; hash = none; why = none }))
moves reserve_call (some e) = (
  some (is_free e.at_status),
  some (if is_free e.at_status then record e { at_status = reserved } else e),
)
moves (complete_call h) (some e) =
    (none, some (record e { at_status = complete; hash = h; why = none }))
moves (fail_call t) (some e) =
    (none, some (record e { at_status = failed; retries = suc e.retries; why = some (take 500 t) }))
moves (human_call t) (some e) =
    (none, some (record e { at_status = needs_human; why = some (take 500 t) }))
moves (skip_call t) (some e) =
    (none, some (record e { at_status = skipped; why = some (take 500 t) }))
moves (skip_call t) none =
    (none, some (record { at_status = skipped; retries = 0; hash = none; why = some (take 500 t) }))
moves _ none = (none, none)

pub same_key_refl : (k : ItemKey) → same_key k k ≡ true
unfolding same_key
same_key_refl k = ground arith

pub eq_of_same_key : (j k : ItemKey) → same_key j k ≡ true → j ≡ k
unfolding same_key
eq_of_same_key j k h = ground arith

abbrev pub changed : (AtomicRow → AtomicRow) → Option AtomicRow → Option AtomicRow
changed f none = none
changed f (some r) = some (f r)

-- A statement on one key, with a function that keeps the key.
pub select-update :
    (j k : ItemKey) (f : AtomicRow → AtomicRow) (rows : List AtomicRow)
    → ((r : AtomicRow) → (f r).key ≡ r.key)
    → select_item k (update_item j f rows)
      ≡ (if same_key j k then changed f (select_item k rows) else select_item k rows)
unfolding select_item update_item
select-update j k f [] keeps = ground arith
select-update j k f (r ∷ rows) keeps = elim (Bool-cases (same_key r.key j)) [
  | inl hit ↦
      let q : same_key (f r).key k ≡ same_key r.key k = ap (λ x. same_key x k) (keeps r) in
      let q' : same_key r.key k ≡ same_key j k =
        ap (λ x. same_key x k) (eq_of_same_key r.key j hit) in
      rw (hit, q, q') (elim (Bool-cases (same_key j k)) [ inl e ↦ rw e refl | inr e ↦ rw e refl ])
  | inr miss ↦ rw miss (elim (Bool-cases (same_key j k)) [
    | inl e ↦
        let q : same_key r.key k ≡ false = rw (← eq_of_same_key j k e) miss in
        rw (e, q, select-update j k f rows keeps, e) refl
    | inr e ↦ rw (e, select-update j k f rows keeps, e) refl
  ])
]

select-append :
    (k : ItemKey) (rows : List AtomicRow) (r : AtomicRow)
    → select_item r.key rows ≡ none
    → select_item k (rows ++ r ∷ []) ≡ (if same_key r.key k then some r else select_item k rows)
unfolding select_item
select-append k [] r h = refl
select-append k (x ∷ rows) r h = elim (Bool-cases (same_key x.key r.key)) [
  | inl hit ↦ absurd (ground (arith, h))
  | inr miss ↦
      let h' = rw miss at h in
      elim (Bool-cases (same_key x.key k)) [
        | inl e ↦ elim (Bool-cases (same_key r.key k)) [
          | inl q ↦ let z = rw (eq_of_same_key r.key k q, e) at miss in cc
          | inr q ↦ rw (e, q) refl
        ]
        | inr e ↦ rw (e, select-append k rows r h') refl
      ]
]

-- A statement on the row of `k` moves the entry of `k`.
view-update :
    (k j : ItemKey) (f : AtomicRow → AtomicRow) (rows : List AtomicRow)
    → ((r : AtomicRow) → (f r).key ≡ r.key)
    → view (update_item k f rows) j
      ≡ (if same_key k j then entry_of (changed f (select_item k rows)) else view rows j)
unfolding view
view-update k j f rows keeps = elim (Bool-cases (same_key k j)) [
  | inl e ↦
      rw (select-update k j f rows keeps, e)
        (ap (λ x. entry_of (changed f (select_item x rows))) (sym (eq_of_same_key k j e)))
  | inr e ↦ rw (select-update k j f rows keeps, e) refl
]

pub view-append :
    (j : ItemKey) (r : AtomicRow) (rows : List AtomicRow)
    → select_item r.key rows ≡ none
    → view (rows ++ r ∷ []) j ≡ (if same_key r.key j then entry_of (some r) else view rows j)
unfolding view
view-append j r rows h = elim (Bool-cases (same_key r.key j)) [
  | inl e ↦ rw (select-append j rows r h, e) refl
  | inr e ↦ rw (select-append j rows r h, e) refl
]

view-still :
    (k j : ItemKey) (rows : List AtomicRow)
    → view rows j ≡ (if same_key k j then view rows k else view rows j)
view-still k j rows = elim (Bool-cases (same_key k j)) [
  | inl e ↦ rw e (ap (view rows) (sym (eq_of_same_key k j e)))
  | inr e ↦ rw e refl
]

-- A call answers, and leaves of every item, what the state machine says.
pub record Refines (k : ItemKey) (c : Call) (rows : List AtomicRow)
    (p : Option Bool × List AtomicRow) : Type 0 where
  pub reply : p.0 ≡ (moves c (view rows k)).0
  pub entries :
      (j : ItemKey) → view p.1 j ≡ (if same_key k j then (moves c (view rows k)).1 else view rows j)

module _ (at : ℕ) (k : ItemKey) (rows : List AtomicRow) where
  -- A key that is not there.
  pub found_none : select_item k rows ≡ none → view rows k ≡ none
  unfolding view
  found_none e = rw e refl

  pub found_some : (r : AtomicRow) → select_item k rows ≡ some r → view rows k ≡ entry_of (some r)
  unfolding view
  found_some r e = rw e refl

  pub write-Refines :
      (c : Call) (f : AtomicRow → AtomicRow)
      → ((r : AtomicRow) → (f r).key ≡ r.key)
      → (entry_of (changed f (select_item k rows)) ≡ (moves c (view rows k)).1)
      → (none ≡ (moves c (view rows k)).0)
      → Refines k c rows (none, update_item k f rows)
  write-Refines c f keeps e answers = record {
    reply = answers;
    entries = λ j.
        view-update k j f rows keeps
        ∙ ap (λ (o : Option Entry). if same_key k j then o else view rows j) e;
  }

  pub reserve_found-Refines :
      (r : AtomicRow) (s : Status)
      → select_item k rows ≡ some r
      → r.status ≡ s
      → let p = reserve_found at k s rows in Refines k reserve_call rows (some p.0, p.1)
  unfolding reserve_found
  reserve_found-Refines r pending e q = record {
    reply = rw (found_some r e, q) refl;
    entries = λ j. view-update k j _ rows (λ r. refl) ∙ rw (found_some r e, e, q) refl;
  }
  reserve_found-Refines r failed e q = record {
    reply = rw (found_some r e, q) refl;
    entries = λ j. view-update k j _ rows (λ r. refl) ∙ rw (found_some r e, e, q) refl;
  }
  reserve_found-Refines r reserved e q = record {
    reply = rw (found_some r e, q) refl;
    entries = λ j. view-still k j rows ∙ rw (found_some r e, q) refl;
  }
  reserve_found-Refines r complete e q = record {
    reply = rw (found_some r e, q) refl;
    entries = λ j. view-still k j rows ∙ rw (found_some r e, q) refl;
  }
  reserve_found-Refines r needs_human e q = record {
    reply = rw (found_some r e, q) refl;
    entries = λ j. view-still k j rows ∙ rw (found_some r e, q) refl;
  }
  reserve_found-Refines r skipped e q = record {
    reply = rw (found_some r e, q) refl;
    entries = λ j. view-still k j rows ∙ rw (found_some r e, q) refl;
  }
