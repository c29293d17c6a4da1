-- ===== src/StateStore.antt =====
-- engine/core/state_store.py: AtomicStateStore over the table `atomic_state` (migration 026). A
-- method is a function of the rows; `reserve`, which reads before it writes, also of what other
-- processes write to the table in between.
pub mod Refinement
pub mod History
pub mod Exclusive
mod Examples
use v10_engine.Prelude.{
  ℕ, suc, Bool, true, false, not, ◌&&◌, Option, none, some, List, [], ◌∷◌, ◌++◌, map, keep, any,
  length, ◌==◌, if◌then◌else◌,
}
use v10_engine.Prelude.Text.{take}
use v10_engine.Store.{Text}

pub data Status : Type 0 where
  pending : Status
  reserved : Status
  complete : Status
  failed : Status
  needs_human : Status
  skipped : Status

abbrev pub is_status : Status → Status → Bool
is_status pending pending = true
is_status reserved reserved = true
is_status complete complete = true
is_status failed failed = true
is_status needs_human needs_human = true
is_status skipped skipped = true
is_status _ _ = false

pub record ItemKey : Type 0 where
  pub engagement : ℕ
  pub node : ℕ
  pub item : ℕ

pub record AtomicRow : Type 0 where
  pub key : ItemKey
  pub status : Status
  pub retry_count : ℕ
  pub artifact_hash : Option Text
  pub reason : Option Text
  pub created_at : ℕ
  pub updated_at : ℕ

-- WHERE engagement_id=? AND node_id=? AND item_key=?
unfoldable pub same_key : ItemKey → ItemKey → Bool
same_key j k = j.engagement == k.engagement && j.node == k.node && j.item == k.item

unfoldable pub select_item : ItemKey → List AtomicRow → Option AtomicRow
select_item k [] = none
select_item k (r ∷ rows) = if same_key r.key k then some r else select_item k rows

-- The three columns are the primary key, so one row at most is met.
unfoldable pub update_item : ItemKey → (AtomicRow → AtomicRow) → List AtomicRow → List AtomicRow
update_item k f [] = []
update_item k f (r ∷ rows) = if same_key r.key k then f r ∷ rows else r ∷ update_item k f rows

abbrev pub fresh_row : ItemKey → Status → Option Text → ℕ → AtomicRow
fresh_row k status reason at = record {
  key = k;
  status = status;
  retry_count = 0;
  artifact_hash = none;
  reason = reason;
  created_at = at;
  updated_at = at;
}

-- INSERT; `none` is the IntegrityError of the primary key.
unfoldable pub insert_item : AtomicRow → List AtomicRow → Option (List AtomicRow)
unfolding select_item
insert_item r rows = elim (select_item r.key rows) [ none ↦ some (rows ++ r ∷ []) | some _ ↦ none ]

abbrev pub reserve_row : ℕ → AtomicRow → AtomicRow
reserve_row at r = record r { status = reserved; updated_at = at }

-- What `reserve` does with the row that it read, given the rows as they are when it writes.
unfoldable pub reserve_found : ℕ → ItemKey → Status → List AtomicRow → Bool × List AtomicRow
unfolding update_item
reserve_found at k reserved rows = (false, rows)
reserve_found at k complete rows = (false, rows)
reserve_found at k failed rows = (true, update_item k (reserve_row at) rows)
reserve_found at k pending rows = (true, update_item k (reserve_row at) rows)
reserve_found at k needs_human rows = (false, rows)
reserve_found at k skipped rows = (false, rows)

-- The `try: INSERT … except: return False` of a key that was not there.
unfoldable pub reserve_new : ℕ → ItemKey → List AtomicRow → Bool × List AtomicRow
unfolding insert_item
reserve_new at k rows = elim (insert_item (fresh_row k reserved none at) rows) [
  | some rows' ↦ (true, rows')
  | none ↦ (false, rows)
]

unfoldable pub reserve :
    (List AtomicRow → List AtomicRow) → ℕ → ItemKey → List AtomicRow → Bool × List AtomicRow
unfolding reserve_found reserve_new
reserve others at k rows = elim (select_item k rows) [
  | some r ↦ reserve_found at k r.status (others rows)
  | none ↦ reserve_new at k (others rows)
]

abbrev pub completed_row : ℕ → Option Text → AtomicRow → AtomicRow
completed_row at hash r = record r {
  status = complete;
  artifact_hash = hash;
  updated_at = at;
  reason = none;
}

unfoldable pub mark_complete : ℕ → ItemKey → Option Text → List AtomicRow → List AtomicRow
unfolding update_item
mark_complete at k hash = update_item k (completed_row at hash)

abbrev pub fail_row : ℕ → Text → AtomicRow → AtomicRow
fail_row at reason r = record r {
  status = failed;
  retry_count = suc r.retry_count;
  reason = some (take 500 reason);
  updated_at = at;
}

unfoldable pub fail : ℕ → ItemKey → Text → List AtomicRow → List AtomicRow
unfolding update_item
fail at k reason = update_item k (fail_row at reason)

abbrev pub marked_row : Status → ℕ → Text → AtomicRow → AtomicRow
marked_row status at reason r = record r {
  status = status;
  reason = some (take 500 reason);
  updated_at = at;
}

unfoldable pub mark_needs_human : ℕ → ItemKey → Text → List AtomicRow → List AtomicRow
unfolding update_item
mark_needs_human at k reason = update_item k (marked_row needs_human at reason)

-- INSERT … ON CONFLICT DO UPDATE
unfoldable pub mark_skipped : ℕ → ItemKey → Text → List AtomicRow → List AtomicRow
unfolding insert_item update_item
mark_skipped at k reason rows =
    elim (insert_item (fresh_row k skipped (some (take 500 reason)) at) rows) [
      | some rows' ↦ rows'
      | none ↦ update_item k (marked_row skipped at reason) rows
    ]

abbrev pub status_of : Option AtomicRow → Option Status
status_of none = none
status_of (some r) = some r.status

abbrev pub retries_of : Option AtomicRow → ℕ
retries_of none = 0
retries_of (some r) = r.retry_count

abbrev pub get_status : ItemKey → List AtomicRow → Option Status
get_status k rows = status_of (select_item k rows)

abbrev pub get_retry_count : ItemKey → List AtomicRow → ℕ
get_retry_count k rows = retries_of (select_item k rows)

-- WHERE engagement_id=? AND node_id=?
unfoldable pub of_node : ℕ → ℕ → AtomicRow → Bool
of_node engagement node r = r.key.engagement == engagement && r.key.node == node

unfoldable pub list_by_status : ℕ → ℕ → Status → List AtomicRow → List ℕ
unfolding of_node
list_by_status engagement node status rows =
    map (λ r. r.key.item) (keep (λ r. of_node engagement node r && is_status r.status status) rows)

abbrev pub list_complete : ℕ → ℕ → List AtomicRow → List ℕ
list_complete engagement node = list_by_status engagement node complete

-- status in ("COMPLETE", "SKIPPED")
abbrev pub is_done : Status → Bool
is_done complete = true
is_done skipped = true
is_done _ = false

-- it in done
unfoldable pub is_done_item : ℕ → ℕ → List AtomicRow → ℕ → Bool
unfolding of_node
is_done_item engagement node rows i =
    any (λ r. of_node engagement node r && is_done r.status && r.key.item == i) rows

unfoldable pub list_incomplete : ℕ → ℕ → List ℕ → List AtomicRow → List ℕ
unfolding is_done_item
list_incomplete engagement node expected rows =
    keep (λ i. not (is_done_item engagement node rows i)) expected

-- summary(...).get(status, 0)
unfoldable pub summary : ℕ → ℕ → List AtomicRow → Status → ℕ
unfolding of_node
summary engagement node rows status =
    length (keep (λ r. of_node engagement node r && is_status r.status status) rows)
