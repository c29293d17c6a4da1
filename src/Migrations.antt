-- ===== src/Migrations.antt =====
-- engine/db/migrations/runner.py: MigrationRunner. The schema that the scripts change and what a
-- script or a statement does to it are parameters, and so are the digest and the characters' classes.
pub mod Sql
pub mod Runs
pub mod Order
pub mod Pending
pub mod RoundTrip
pub mod Rollback
mod Examples
use v10_engine.Prelude.{
  ℕ, zero, suc, Bool, true, false, not, ◌&&◌, ◌||◌, Option, none, some, List, [], ◌∷◌, ◌++◌, map,
  keep, ltb, leb, ◌==◌, if◌then◌else◌,
}
use v10_engine.Prelude.Text.{codes, text_eq, elem_text, drop_prefix}
use v10_engine.Store.{Text}
use v10_engine.Migrations.Sql.{
  Section, up, down, parse_section, split_statements, strip, extract_description,
}

pub record MigrationRow : Type 0 where
  pub version : Text
  pub description : Text
  pub checksum : Text
  pub applied_at : ℕ

-- A file of the folder `versions`.
pub record SqlFile : Type 0 where
  pub file_name : Text
  pub content : Text

-- What a script does, and whether it ends without an exception: the statements before the one that
-- fails are committed. A statement in a transaction is done or is an exception.
pub record Driver (S : Type 0) : Type 0 where
  pub executescript : Text → S → S × Bool
  pub execute : Text → S → Option S
  pub sha256 : Text → Text
  pub is_space : ℕ → Bool
  pub is_word : ℕ → Bool
  pub is_decimal : ℕ → Bool

-- The database: the schema and the rows of `schema_migrations`.
pub record Database (S : Type 0) : Type 0 where
  pub schema : S
  pub rows : List MigrationRow

pub data MigrationError : Type 0 where
  missing_file : Text → MigrationError
  empty_section : Text → MigrationError
  sql_error : Text → MigrationError

-- What a run ends with: the versions that it applied, and the exception that ended it, if any.
pub record Run (S : Type 0) : Type 0 where
  pub db : Database S
  pub applied_now : List Text
  pub raised : Option MigrationError

-- `\w+\.sql$`: the word characters before the extension, one or more.
unfoldable pub word_sql : (ℕ → Bool) → Text → Option Text
unfolding text_eq
word_sql is_word [] = none
word_sql is_word (c ∷ t) =
    let rest = word_sql is_word t in
    if is_word c
    then if text_eq t (codes ".sql") || text_eq t (codes ".sql" ++ 10 ∷ [])
      then some (c ∷ [])
      else elim rest [ none ↦ none | some w ↦ some (c ∷ w) ]
    else none

-- `^(\d{3}_\w+)\.sql$`
unfoldable pub version_of : (ℕ → Bool) → (ℕ → Bool) → Text → Option Text
unfolding word_sql
version_of is_decimal is_word (a ∷ b ∷ c ∷ d ∷ t) =
    if is_decimal a && is_decimal b && is_decimal c && d == b'_'
    then elim (word_sql is_word t) [ none ↦ none | some w ↦ some (a ∷ b ∷ c ∷ d ∷ w) ]
    else none
version_of is_decimal is_word _ = none

-- s < t, by code points.
unfoldable pub text_ltb : Text → Text → Bool
text_ltb s [] = false
text_ltb [] (d ∷ t) = true
text_ltb (c ∷ s) (d ∷ t) = ltb c d || c == d && text_ltb s t

unfoldable pub insert_file : SqlFile → List SqlFile → List SqlFile
unfolding text_ltb
insert_file f [] = f ∷ []
insert_file f (g ∷ files) =
    if text_ltb g.file_name f.file_name then g ∷ insert_file f files else f ∷ g ∷ files

-- sorted(os.listdir(VERSIONS_DIR))
unfoldable pub sorted_files : List SqlFile → List SqlFile
unfolding insert_file
sorted_files [] = []
sorted_files (f ∷ files) = insert_file f (sorted_files files)

abbrev pub versions : List MigrationRow → List Text
versions rows = map (λ r. r.version) rows

module _ {S : Type 0} (d : Driver S) where
  unfoldable pub pending_files : List Text → List SqlFile → List (Text × Text)
  unfolding version_of elem_text
  pending_files applied [] = []
  pending_files applied (f ∷ files) =
      let rest = pending_files applied files in
      elim (version_of d.is_decimal d.is_word f.file_name) [
        | none ↦ rest
        | some v ↦ if elem_text v applied then rest else (v, f.content) ∷ rest
      ]

  unfoldable pub discover_pending : List Text → List SqlFile → List (Text × Text)
  unfolding pending_files sorted_files
  discover_pending applied files = pending_files applied (sorted_files files)

  abbrev or_version : Text → Text → Text
  or_version [] v = v
  or_version (c ∷ t) v = c ∷ t

  abbrev pub row_of : ℕ → Text → Text → MigrationRow
  row_of at v raw = record {
    version = v;
    description = or_version (extract_description d.is_space raw) v;
    checksum = d.sha256 raw;
    applied_at = at;
  }

  -- not sql.strip()
  unfoldable pub is_blank : Text → Bool
  unfolding strip
  is_blank t = elim (strip d.is_space t) [ [] ↦ true | c ∷ r ↦ false ]

  -- `_apply`; the row is inserted in a transaction of its own, which the primary key may refuse.
  unfoldable pub apply : ℕ → Text → Text → Database S → Database S × Option MigrationError
  unfolding extract_description parse_section is_blank elem_text
  apply at v raw db =
      let up_sql = parse_section d.is_space up raw in
      if is_blank up_sql
      then (db, some (empty_section v))
      else let (schema', done) = d.executescript up_sql db.schema in
        if done && not (elem_text v (versions db.rows))
        then (record { schema = schema'; rows = db.rows ++ row_of at v raw ∷ [] }, none)
        else (record db { schema = schema' }, some (sql_error v))

  -- for version, sql_path in pending
  unfoldable pub apply_all : ℕ → List (Text × Text) → Database S → Run S
  unfolding apply
  apply_all at [] db = record { db = db; applied_now = []; raised = none }
  apply_all at ((v, raw) ∷ pending) db =
      let (db', error) = apply at v raw db in
      elim error [
        | some e ↦ record { db = db'; applied_now = []; raised = some e }
        | none ↦
            let r = apply_all at pending db' in
            record { db = r.db; applied_now = v ∷ r.applied_now; raised = r.raised }
      ]

  unfoldable pub run_pending : ℕ → List SqlFile → Database S → Run S
  unfolding discover_pending apply_all
  run_pending at files db = apply_all at (discover_pending (versions db.rows) files) db

  -- ORDER BY applied_at DESC LIMIT 1; of equal times, the row that stands first.
  unfoldable pub latest : List MigrationRow → Option MigrationRow
  latest [] = none
  latest (r ∷ rows) = elim (latest rows) [
    | none ↦ some r
    | some q ↦ if ltb r.applied_at q.applied_at then some q else some r
  ]

  unfoldable pub file_of : Text → List SqlFile → Option SqlFile
  unfolding text_eq
  file_of v [] = none
  file_of v (f ∷ files) =
      if text_eq f.file_name (v ++ codes ".sql") then some f else file_of v files

  unfoldable pub execute_all : List Text → S → Option S
  execute_all [] s = some s
  execute_all (q ∷ stmts) s = elim (d.execute q s) [ none ↦ none | some s' ↦ execute_all stmts s' ]

  unfoldable pub delete_row : Text → List MigrationRow → List MigrationRow
  unfolding text_eq
  delete_row v rows = keep (λ r. not (text_eq r.version v)) rows

  abbrev pub stays : Database S → Option MigrationError → Run S
  stays db e = record { db = db; applied_now = []; raised = e }

  -- The DOWN section in one transaction; `applied_now` has the version that was rolled back.
  unfoldable pub roll_back : Text → Text → Database S → Run S
  unfolding execute_all delete_row parse_section split_statements is_blank
  roll_back v raw db =
      let down_sql = parse_section d.is_space down raw in
      if is_blank down_sql
      then stays db (some (empty_section v))
      else elim (execute_all (split_statements d.is_space down_sql) db.schema) [
        | none ↦ stays db (some (sql_error v))
        | some s ↦ record {
          db = record { schema = s; rows = delete_row v db.rows };
          applied_now = v ∷ [];
          raised = none;
        }
      ]

  unfoldable pub rollback_last : List SqlFile → Database S → Run S
  unfolding latest file_of roll_back
  rollback_last files db = elim (latest db.rows) [
    | none ↦ stays db none
    | some r ↦ elim (file_of r.version files) [
      | none ↦ stays db (some (missing_file r.version))
      | some f ↦ roll_back r.version f.content db
    ]
  ]
