-- ===== src/Cascade/Cleanup.antt =====
-- `cleanup_timed_out` of engine/core/cascade.py. Times are counted in microseconds from midnight UTC;
-- how a date and a time of day are written is a parameter, for Python and for SQLite.
use v10_engine.Prelude.{
  ℕ, ◌-◌, ◌/◌, ◌%◌, ◌≡◌, refl, ap, ◌∙◌, Bool, false, ◌&&◌, Option, none, some, List, [], ◌∷◌, ◌++◌,
  map, keep, length, arith, All,
}
use v10_engine.Store.{NodeRow, Text}
use v10_engine.Store.World.{World, Env, yield_to, now}
use v10_engine.Migrations.{text_ltb}
use v10_engine.Cascade.{phase2_all}

abbrev pub one_day : ℕ
one_day = 86400000000

abbrev pub five_minutes : ℕ
five_minutes = 300000000

-- The date as YYYY-MM-DD, which both write alike; the rest of an ISO text behind its `T`, and of a
-- text of SQLite behind its blank.
pub record Format : Type 0 where
  pub date : ℕ → Text
  pub iso_time : ℕ → Text
  pub sql_time : ℕ → Text

-- datetime.isoformat, as in the column.
unfoldable pub isoformat : Format → ℕ → Text
isoformat f t = f.date (t / one_day) ++ b'T' ∷ f.iso_time (t % one_day)

-- datetime(?, '-5 minutes')
unfoldable pub sql_cutoff : Format → ℕ → Text
sql_cutoff f at =
    let t = at - five_minutes in f.date (t / one_day) ++ b' ' ∷ f.sql_time (t % one_day)

-- invalidation_queued_at < datetime(?, '-5 minutes'), a comparison of texts that a NULL never meets.
unfoldable pub queued_before : Format → ℕ → Option ℕ → Bool
unfolding isoformat sql_cutoff text_ltb
queued_before f at none = false
queued_before f at (some queued) = text_ltb (isoformat f queued) (sql_cutoff f at)

unfoldable pub timed_out_ids : Format → ℕ → List NodeRow → List ℕ
unfolding queued_before
timed_out_ids f at rows =
    map (λ r. r.id)
      (keep (λ r. r.invalidation_pending && queued_before f at r.invalidation_queued_at) rows)

-- `cleanup_timed_out`: the count has every row, applied or not.
unfoldable pub cleanup_timed_out : Format → Env → Bool → World → ℕ × World
unfolding timed_out_ids phase2_all
cleanup_timed_out f env has_agent w =
    let w' = yield_to env w in
    let is = timed_out_ids f (now env w) w'.nodes in (length is, (phase2_all env has_agent is w').1)

-- Queued on the day of the cutoff, at whatever hour.
abbrev pub SameDay : ℕ → Option ℕ → Type 0
SameDay at none = Unit
SameDay at (some queued) = queued / one_day ≡ (at - five_minutes) / one_day

-- Behind the same date the blank stands below the `T`.
same_date : (d s t : Text) → text_ltb (d ++ b'T' ∷ s) (d ++ b' ' ∷ t) ≡ false
unfolding text_ltb
same_date [] s t = refl
same_date (c ∷ d) s t = ground (arith, same_date d s t)

queued_before-SameDay :
    (f : Format) (at : ℕ) (o : Option ℕ) → SameDay at o → queued_before f at o ≡ false
unfolding queued_before isoformat sql_cutoff
queued_before-SameDay f at none h = refl
queued_before-SameDay f at (some q) h =
    let t = at - five_minutes in
    ap (λ day. text_ltb (f.date day ++ b'T' ∷ f.iso_time (q % one_day)) (sql_cutoff f at)) h
    ∙ same_date (f.date (t / one_day)) (f.iso_time (q % one_day)) (f.sql_time (t % one_day))

timed_out_ids_empty :
    (f : Format) (at : ℕ) (rows : List NodeRow)
    → All (λ r. SameDay at r.invalidation_queued_at) rows
    → timed_out_ids f at rows ≡ []
unfolding timed_out_ids
timed_out_ids_empty f at [] h = refl
timed_out_ids_empty f at (r ∷ rows) h = ground (
  arith,
  timed_out_ids_empty f at rows h.1,
  queued_before-SameDay f at r.invalidation_queued_at h.0,
)

-- A row that was queued on the day of the cutoff is not cleaned up, however many hours ago, since the
-- `T` behind the date of the one text is above the blank of the other: where all rows are such, or
-- are not queued, the clean-up does nothing.
pub cleanup_timed_out-SameDay :
    (f : Format) (env : Env) (has_agent : Bool) (w : World)
    → All (λ r. SameDay (now env w) r.invalidation_queued_at) (yield_to env w).nodes
    → cleanup_timed_out f env has_agent w ≡ (0, yield_to env w)
unfolding cleanup_timed_out phase2_all
cleanup_timed_out-SameDay f env has_agent w h =
    rw (timed_out_ids_empty f (now env w) (yield_to env w).nodes h, phase2_all) refl
