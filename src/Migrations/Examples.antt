-- ===== src/Migrations/Examples.antt =====
-- Examples for engine/db/migrations/runner.py.
use v10_engine.Prelude.{
  ℕ, suc, ◌≡◌, refl, Bool, true, ◌&&◌, ◌||◌, none, some, List, [], ◌∷◌, ◌++◌, leb, ◌==◌,
}
use v10_engine.Prelude.Text.{codes}
use v10_engine.Store.{Text}
use v10_engine.Migrations.{
  SqlFile, Driver, Database, versions, run_pending, roll_back, delete_row, is_blank,
}
use v10_engine.Migrations.Sql.{up, parse_section}
use v10_engine.Migrations.Runs.{run_pending_twice}
use v10_engine.Migrations.RoundTrip.{join_semicolons, parse_section-up}
use v10_engine.Migrations.Rollback.{roll_back_comments}

abbrev blank : ℕ → Bool
blank c = c == 32 || c == 10

-- A schema that is the number of scripts and statements run.
abbrev counting : Driver ℕ
counting = record {
  executescript = λ t n. (suc n, true);
  execute = λ t n. some (suc n);
  sha256 = λ t. [];
  is_space = blank;
  is_word = λ c. leb b'a' c && leb c b'z' || leb b'0' c && leb c b'9';
  is_decimal = λ c. leb b'0' c && leb c b'9';
}

abbrev users_sql : Text
users_sql =
    codes "-- UP:" ++ 10 ∷ codes "CREATE x;" ++ codes "-- DOWN:" ++ 10 ∷ codes "-- DROP x;-- DROP y"

abbrev files : List SqlFile
files =
    record { file_name = codes "002_b.sql"; content = users_sql }
    ∷ record { file_name = codes "001_a.sql"; content = users_sql }
    ∷ []

abbrev empty_db : Database ℕ
empty_db = record { schema = 0; rows = [] }

run_pending_twice_example :
    run_pending counting 6 files (run_pending counting 5 files empty_db).db
    ≡ record { db = (run_pending counting 5 files empty_db).db; applied_now = []; raised = none }
unfolding run_pending
run_pending_twice_example = run_pending_twice counting 5 6 files empty_db refl

run_pending_example :
    versions (run_pending counting 5 files empty_db).db.rows ≡ codes "001_a" ∷ codes "002_b" ∷ []
unfolding run_pending
run_pending_example = refl

parse_section-up_example :
    parse_section blank up (
      codes "-- 001"
      ++ (codes "-- UP:" ++ 10 ∷ ((codes "CREATE x;") ++ (codes "-- DOWN:" ++ codes " no"))))
    ≡ codes "CREATE x;"
unfolding parse_section
parse_section-up_example =
    parse_section-up blank
      (record { blank = refl; line_feed = refl; letter_u = refl; letter_d = refl }) (codes "-- 001")
      b'C' (codes "REATE x;") (codes " no") refl (refl, (refl, (refl, (refl, (refl, (refl, tt))))))
      (refl, (refl, (refl, (refl, (refl, (refl, (refl, (refl, (refl, tt)))))))))

roll_back_comments_example : roll_back counting (codes "001_a") users_sql empty_db ≡ record {
  db = record { schema = 0; rows = delete_row counting (codes "001_a") [] };
  applied_now = codes "001_a" ∷ [];
  raised = none;
}
unfolding parse_section join_semicolons is_blank
roll_back_comments_example =
    roll_back_comments counting (codes "001_a") users_sql (codes "-- DROP x")
      (codes "-- DROP y" ∷ []) empty_db refl refl
      (
        record { one_part = refl; no_statement = refl },
        (record { one_part = refl; no_statement = refl }, tt),
      )
