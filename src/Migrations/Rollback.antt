-- ===== src/Migrations/Rollback.antt =====
-- rollback_last of engine/db/migrations/runner.py on the DOWN sections that the repository has.
use v10_engine.Prelude.{ℕ, ◌≡◌, refl, ap, ◌∙◌, Bool, true, false, none, List, [], ◌∷◌, keep, All}
use v10_engine.Store.{Text}
use v10_engine.Migrations.{Driver, Database, is_blank, execute_all, delete_row, roll_back}
use v10_engine.Migrations.Sql.{
  down, parse_section, strip, strip_all, split_statements, is_statement,
}
use v10_engine.Migrations.RoundTrip.{join_semicolons, has_no_semicolon, split-join}

-- A part between semicolons that is empty or starts with a comment.
pub record IsComment (is_space : ℕ → Bool) (s : Text) : Type 0 where
  pub one_part : has_no_semicolon s ≡ true
  pub no_statement : is_statement (strip is_space s) ≡ false

module _ (is_space : ℕ → Bool) where
  keep_comments :
      (parts : List Text)
      → All (IsComment is_space) parts
      → keep is_statement (strip_all is_space parts) ≡ []
  unfolding strip_all
  keep_comments [] h = refl
  keep_comments (s ∷ parts) h = rw h.0.no_statement (keep_comments parts h.1)

  parts_whole :
      (parts : List Text)
      → All (IsComment is_space) parts
      → All (λ s. has_no_semicolon s ≡ true) parts
  parts_whole [] h = tt
  parts_whole (s ∷ parts) h = (h.0.one_part, parts_whole parts h.1)

  split_comments :
      (s : Text) (parts : List Text)
      → All (IsComment is_space) (s ∷ parts)
      → split_statements is_space (join_semicolons (s ∷ parts)) ≡ []
  unfolding split_statements
  split_comments s parts h =
      ap (λ l. keep is_statement (strip_all is_space l))
        (split-join s parts (parts_whole (s ∷ parts) h))
      ∙ keep_comments (s ∷ parts) h

-- Where each part of the DOWN section starts with a comment, rolling the version back undoes nothing
-- and is a success: the schema stays and the row of the version goes.
pub roll_back_comments :
    {S : Type 0} (d : Driver S) (v raw s : Text) (parts : List Text) (db : Database S)
    → parse_section d.is_space down raw ≡ join_semicolons (s ∷ parts)
    → is_blank d (join_semicolons (s ∷ parts)) ≡ false
    → All (IsComment d.is_space) (s ∷ parts)
    → roll_back d v raw db ≡ record {
      db = record { schema = db.schema; rows = delete_row d v db.rows };
      applied_now = v ∷ [];
      raised = none;
    }
unfolding roll_back execute_all
roll_back_comments d v raw s parts db e full comments =
    rw (e, full, split_comments d.is_space s parts comments) refl
