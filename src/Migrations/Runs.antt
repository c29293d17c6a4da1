-- ===== src/Migrations/Runs.antt =====
-- Runs of the migrations of engine/db/migrations/runner.py.
use v10_engine.Prelude.{
  ℕ, ◌≡◌, refl, ap, sym, ◌∙◌, ◌⊎◌, inl, inr, true, false, ◌||◌, ◌&&◌, not, none, some, List, [],
  ◌∷◌, ◌++◌, map, arith, append-nil, append_assoc, Bool-cases, Option-cases,
}
use v10_engine.Prelude.Text.{elem_text, text_eq_refl}
use v10_engine.Store.{Text}
use v10_engine.Migrations.{
  MigrationRow, SqlFile, Driver, Database, MigrationError, Run, empty_section, sql_error, versions,
  version_of, pending_files, discover_pending, sorted_files, row_of, is_blank, apply, apply_all,
  run_pending,
}
use v10_engine.Migrations.Sql.{up, parse_section}

pub elem_text-append :
    (s : Text) (xs ys : List Text) → elem_text s (xs ++ ys) ≡ (elem_text s xs || elem_text s ys)
unfolding elem_text
elem_text-append s [] ys = refl
elem_text-append s (x ∷ xs) ys = ground (arith, elem_text-append s xs ys)

abbrev pub names : List (Text × Text) → List Text
names pending = map (λ p. p.0) pending

map-append_versions : (xs ys : List MigrationRow) → versions (xs ++ ys) ≡ versions xs ++ versions ys
map-append_versions [] ys = refl
map-append_versions (x ∷ xs) ys = ap (λ l. x.version ∷ l) (map-append_versions xs ys)

module _ {S : Type 0} (d : Driver S) where
  -- A migration that ends well adds its row, one that fails adds none.
  apply_records :
      (at : ℕ) (v raw : Text) (db : Database S)
      → let p = apply d at v raw db in
        ((p.1 ≡ none) × (versions p.0.rows ≡ versions db.rows ++ v ∷ []))
        ⊎ ((e : MigrationError) × (p.1 ≡ some e) × (p.0.rows ≡ db.rows))
  unfolding apply
  apply_records at v raw db = elim (Bool-cases (is_blank d (parse_section d.is_space up raw))) [
    | inl e ↦ inr (empty_section v, rw (e, apply) refl, rw (e, apply) refl)
    | inr e ↦
        let script = (d.executescript (parse_section d.is_space up raw) db.schema).1 in
        elim (Bool-cases (script && not (elem_text v (versions db.rows)))) [
          | inl done ↦ inl (
            rw (e, apply) (rw done refl),
            rw (e, apply) (rw done (map-append_versions db.rows (row_of d at v raw ∷ []))),
          )
          | inr stopped ↦
              inr (sql_error v, rw (e, apply) (rw stopped refl), rw (e, apply) (rw stopped refl))
        ]
  ]

  -- What a run has recorded: the versions of before, then those it applied, which are the front of the
  -- pending ones; all of them exactly when no error ended the run.
  pub record Records (pending : List (Text × Text)) (before : List MigrationRow) (r : Run S)
      : Type 0 where
    pub rest : List Text
    pub in_order : names pending ≡ r.applied_now ++ rest
    pub recorded : versions r.db.rows ≡ versions before ++ r.applied_now
    pub all_or_error : (r.raised ≡ none → rest ≡ []) × (rest ≡ [] → r.raised ≡ none)

  apply_all-Records :
      (at : ℕ) (pending : List (Text × Text)) (db : Database S)
      → Records pending db.rows (apply_all d at pending db)
  unfolding apply_all
  apply_all-Records at [] db = record {
    rest = [];
    in_order = refl;
    recorded = sym (append-nil (versions db.rows));
    all_or_error = ((λ h. refl), (λ h. refl));
  }
  apply_all-Records at ((v, raw) ∷ pending) db = elim (apply_records at v raw db) [
    | inl (fine, added) ↦
        let db' = (apply d at v raw db).0 in
        let r = apply_all-Records at pending db' in
        rw (fine, apply_all)
          (record {
            rest = r.rest;
            in_order = ap (λ l. v ∷ l) r.in_order;
            recorded =
                r.recorded
                ∙ ap (λ l. l ++ (apply_all d at pending db').applied_now) added
                ∙ append_assoc (versions db.rows) (v ∷ []) (apply_all d at pending db').applied_now;
            all_or_error = r.all_or_error;
          })
    | inr (e, failed, same) ↦
        rw (failed, apply_all)
          (record {
            rest = v ∷ names pending;
            in_order = refl;
            recorded = ap versions same ∙ sym (append-nil (versions db.rows));
            all_or_error = ((λ h. absurd (ground (arith, h))), (λ h. absurd (ground (arith, h))));
          })
  ]

  module _ (applied : List Text) (f : SqlFile) (files : List SqlFile) where
    pub pending_skips :
        version_of d.is_decimal d.is_word f.file_name ≡ none
        → pending_files d applied (f ∷ files) ≡ pending_files d applied files
    unfolding pending_files
    pending_skips e = rw (e, pending_files) refl

    module _ (v : Text) (e : version_of d.is_decimal d.is_word f.file_name ≡ some v) where
      pub pending_has :
          elem_text v applied ≡ true
          → pending_files d applied (f ∷ files) ≡ pending_files d applied files
      unfolding pending_files
      pending_has old = rw (e, pending_files) (rw old refl)

      pub pending_adds :
          elem_text v applied ≡ false
          → pending_files d applied (f ∷ files) ≡ (v, f.content) ∷ pending_files d applied files
      unfolding pending_files
      pending_adds new = rw (e, pending_files) (rw new refl)

  -- Nothing is pending once all versions are recorded.
  pending_files_none :
      (applied applied' : List Text) (files : List SqlFile)
      → ((t : Text)
          → elem_text t (applied ++ names (pending_files d applied files)) ≡ true
          → elem_text t applied' ≡ true)
      → pending_files d applied' files ≡ []
  unfolding pending_files elem_text
  pending_files_none applied applied' [] h = refl
  pending_files_none applied applied' (f ∷ files) h =
      elim (Option-cases (version_of d.is_decimal d.is_word f.file_name)) [
        | inl e ↦
            pending_skips applied' f files e
            ∙ pending_files_none applied applied' files (rw (pending_skips applied f files e) at h)
        | inr (v, e) ↦ elim (Bool-cases (elem_text v applied)) [
          | inl old ↦
              let h' = rw (pending_has applied f files v e old) at h in
              let there = h' v (elem_text-append v applied _ ∙ ground (arith, old)) in
              pending_has applied' f files v e there ∙ pending_files_none applied applied' files h'
          | inr new ↦
              let h' = rw (pending_adds applied f files v e new) at h in
              let rest = names (pending_files d applied files) in
              let there =
                h' v (elem_text-append v applied (v ∷ rest) ∙ rw (new, text_eq_refl v) refl) in
              pending_has applied' f files v e there
              ∙ pending_files_none applied applied' files (λ t m. h' t (
                  elem_text-append t applied (v ∷ rest)
                  ∙ ground (arith, m, elem_text-append t applied rest)))
        ]
      ]

-- A run applies a front of what `discover_pending` gives and records that and no more.
pub run_pending-Records :
    {S : Type 0} (d : Driver S) (at : ℕ) (files : List SqlFile) (db : Database S)
    → Records d (discover_pending d (versions db.rows) files) db.rows (run_pending d at files db)
unfolding run_pending
run_pending-Records d at files db =
    apply_all-Records d at (discover_pending d (versions db.rows) files) db

-- After a run without an error a second run over the same files finds nothing to do.
pub run_pending_twice :
    {S : Type 0} (d : Driver S) (at at' : ℕ) (files : List SqlFile) (db : Database S)
    → (run_pending d at files db).raised ≡ none
    → run_pending d at' files (run_pending d at files db).db
      ≡ record { db = (run_pending d at files db).db; applied_now = []; raised = none }
unfolding run_pending discover_pending
run_pending_twice d at at' files db fine =
    let r = run_pending-Records d at files db in
    let p = pending_files d (versions db.rows) (sorted_files files) in
    let all_of_them : names p ≡ (run_pending d at files db).applied_now =
      r.in_order
      ∙ ap (λ l. (run_pending d at files db).applied_now ++ l) (r.all_or_error.0 fine)
      ∙ append-nil (run_pending d at files db).applied_now in
    let now_recorded : versions (run_pending d at files db).db.rows ≡ versions db.rows ++ names p =
      r.recorded ∙ ap (λ l. versions db.rows ++ l) (sym all_of_them) in
    let nothing =
      pending_files_none d (versions db.rows) (versions (run_pending d at files db).db.rows)
        (sorted_files files) (λ t m. ap (elem_text t) now_recorded ∙ m) in
    nothing_to_do nothing
  where
    nothing_to_do :
        pending_files d (versions (run_pending d at files db).db.rows) (sorted_files files) ≡ []
        → apply_all d at'
            (pending_files d (versions (run_pending d at files db).db.rows) (sorted_files files))
            (run_pending d at files db).db
          ≡ record { db = (run_pending d at files db).db; applied_now = []; raised = none }
    nothing_to_do e =
        ap (λ l. apply_all d at' l (run_pending d at files db).db) e ∙ unfold apply_all in refl
