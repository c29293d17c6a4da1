-- ===== src/Cascade.antt =====
-- The two-phase invalidation of engine/core/cascade.py: `Downstream` models its search along the
-- edges, this file its two phases and its batches over the table `nodes`.
pub mod Downstream
pub mod Fresh
pub mod Reach
pub mod Phase1
pub mod Phase2
pub mod Batch
pub mod Cleanup
mod Examples
pub mod Safety
use v10_engine.Prelude.{
  ℕ, zero, suc, ◌+◌, Bool, true, false, not, ◌&&◌, Option, none, some, List, [], ◌∷◌, map, ltb,
  ◌==◌, keep, if◌then◌else◌,
}
use v10_engine.Prelude.Sort.{sorted}
use v10_engine.Prelude.Text.{take}
use v10_engine.StateMachine.{NodeState, invalid, skipped, in_progress, state_eq, is_valid}
use v10_engine.Store.{
  NodeRow, Text, ChangeType, any_row, at_version, select, write_row, rows_affected,
}
use v10_engine.Store.World.{World, Env, yield_to, now, set_nodes}
use v10_engine.Cascade.Downstream.{downstream_nodes}

-- `affected_sections or []`
abbrev pub sections_of : Option (List Text) → List Text
sections_of none = []
sections_of (some sections) = sections

abbrev pub mark_row : ℕ → ℕ → ChangeType → List Text → NodeRow → NodeRow
mark_row source at change_type sections r = record r {
  invalidation_pending = true;
  invalidation_source_id = some source;
  invalidation_queued_at = some at;
  invalidation_change_type = some change_type;
  invalidation_affected_sections = sections;
  updated_at = at;
}

-- AND invalidation_pending=0
abbrev pub not_pending : NodeRow → Bool
not_pending r = not r.invalidation_pending

unfoldable pub mark_all : Env → (NodeRow → NodeRow) → List ℕ → World → World
mark_all env f [] w = w
mark_all env f (i ∷ is) w =
    let w' = yield_to env w in mark_all env f is (set_nodes w' (write_row i not_pending f w'.nodes))

-- `phase1_mark_pending`: the nodes below the changed one, and the world with their marks. The search
-- reads the edges; other tasks change none of them meanwhile.
unfoldable pub phase1_mark_pending :
    Env → ℕ → ChangeType → Option (List Text) → World → List ℕ × World
unfolding mark_all
phase1_mark_pending env changed change_type sections w =
    let impacted = downstream_nodes w.edges changed in
    (
      impacted,
      mark_all env (mark_row changed (now env w) change_type (sections_of sections)) impacted w,
    )

abbrev pub clear_row : ℕ → NodeRow → NodeRow
clear_row at r = record r { invalidation_pending = false; updated_at = at }

abbrev pub invalid_row : ℕ → NodeRow → NodeRow
invalid_row at r = record r {
  state = invalid;
  invalidation_pending = false;
  updated_at = at;
  version = suc r.version;
}

-- The statement that only takes the mark away.
abbrev pub clear_mark : Env → ℕ → World → Bool × World
clear_mark env i w =
    let w' = yield_to env w in
    (false, set_nodes w' (write_row i any_row (clear_row (now env w)) w'.nodes))

-- The transition of a row that was read as `node`.
unfoldable pub apply_invalid : Env → ℕ → NodeRow → World → Bool × World
apply_invalid env i node w =
    if not (is_valid node.state invalid)
    then clear_mark env i w
    else (let w' = yield_to env w in
        (
          not (rows_affected i (at_version node.version) w'.nodes == 0),
          set_nodes w' (write_row i (at_version node.version) (invalid_row (now env w)) w'.nodes),
        ))

unfoldable pub phase2_row : Env → Bool → ℕ → Option NodeRow → World → Bool × World
unfolding apply_invalid
phase2_row env has_agent i none w = (false, w)
phase2_row env has_agent i (some node) w =
    if not node.invalidation_pending
    then (false, w)
    else if state_eq node.state skipped
    then clear_mark env i w
    else apply_invalid env i node
        (if state_eq node.state in_progress && has_agent then yield_to env w else w)

-- `phase2_apply_invalid`: whether the transition was made. `has_agent` says whether there is a
-- `terminate_agent` to wait for; what it does to the tables is the other tasks' doing.
unfoldable pub phase2_apply_invalid : Env → Bool → ℕ → World → Bool × World
unfolding phase2_row
phase2_apply_invalid env has_agent i w =
    let w' = yield_to env w in phase2_row env has_agent i (select i w'.nodes) w'

-- for row in rows: the number of transitions made.
unfoldable pub phase2_all : Env → Bool → List ℕ → World → ℕ × World
unfolding phase2_apply_invalid
phase2_all env has_agent [] w = (0, w)
phase2_all env has_agent (i ∷ is) w =
    let (applied, w') = phase2_apply_invalid env has_agent i w in
    let (count, w'') = phase2_all env has_agent is w' in (if applied then suc count else count, w'')

-- ORDER BY invalidation_queued_at ASC, where NULL comes first.
abbrev pub queued_key : NodeRow → ℕ
queued_key r = elim r.invalidation_queued_at [ none ↦ 0 | some at ↦ suc at ]

unfoldable pub pending_ids : ℕ → List NodeRow → List ℕ
unfolding sorted take
pending_ids limit rows =
    take limit (map (λ r. r.id) (sorted queued_key (keep (λ r. r.invalidation_pending) rows)))

-- `process_pending_batch`
unfoldable pub process_pending_batch : Env → Bool → ℕ → World → ℕ × World
unfolding pending_ids phase2_all
process_pending_batch env has_agent limit w =
    let w' = yield_to env w in phase2_all env has_agent (pending_ids limit w'.nodes) w'
