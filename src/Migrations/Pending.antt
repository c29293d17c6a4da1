-- ===== src/Migrations/Pending.antt =====
-- Which migrations a run of engine/db/migrations/runner.py applies, and in which order.
use v10_engine.Prelude.{
  ◌≡◌, ◌⊎◌, Bool, true, false, not, Option, none, some, List, ◌++◌, map, keep, All,
}
use v10_engine.Prelude.Text.{elem_text}
use v10_engine.Store.{Text}
use v10_engine.Migrations.{SqlFile, Driver, version_of}
use v10_engine.Migrations.Runs.{names}
use v10_engine.Migrations.Order.{Ordered, In}

-- What is to be applied: files of the folder in the order of their names, with the versions and the
-- contents of them, none of which is recorded; and each file of the folder that has a version is
-- recorded or among them.
pub record IsPending {S : Type 0} (d : Driver S) (applied : List Text) (files : List SqlFile)
    (p : List (Text × Text)) : Type 0 where
  pub taken : List SqlFile
  pub versions_of :
      map (λ f. version_of d.is_decimal d.is_word f.file_name) taken ≡ map (λ x. some x.0) p
  pub contents_of : map (λ f. f.content) taken ≡ map (λ x. x.1) p
  pub ordered : Ordered taken
  pub from_folder : All (λ f. In f files) taken
  pub unrecorded : All (λ v. elem_text v applied ≡ false) (names p)
  pub complete :
      All
        (λ f.
          (version_of d.is_decimal d.is_word f.file_name ≡ none)
          ⊎ ((v : Text) × (version_of d.is_decimal d.is_word f.file_name ≡ some v)
              × (elem_text v (applied ++ names p) ≡ true)))
        files

module _ {S : Type 0} (d : Driver S) (applied : List Text) where
  version_at : SqlFile → Option Text
  version_at f = version_of d.is_decimal d.is_word f.file_name

  is_new : Option Text → Bool
  is_new none = false
  is_new (some v) = not (elem_text v applied)

  taken_from : List SqlFile → List SqlFile
  taken_from files = keep (λ f. is_new (version_at f)) files

  Told : List (Text × Text) → SqlFile → Type 0
  Told p f =
      (version_at f ≡ none)
      ⊎ ((v : Text) × (version_at f ≡ some v) × (elem_text v (applied ++ names p) ≡ true))

  record Picks (files taken : List SqlFile) (p : List (Text × Text)) : Type 0 where
    versions_of : map version_at taken ≡ map (λ x. some x.0) p
    contents_of : map (λ f. f.content) taken ≡ map (λ x. x.1) p
    unrecorded : All (λ v. elem_text v applied ≡ false) (names p)
    complete : All (Told p) files
