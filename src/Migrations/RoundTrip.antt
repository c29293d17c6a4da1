-- ===== src/Migrations/RoundTrip.antt =====
-- Reading back what a migration file (engine/db/migrations/runner.py) is put together from.
use v10_engine.Prelude.{
  ℕ, ◌≡◌, refl, ap, sym, ◌∙◌, inl, inr, Bool, true, false, not, none, some, List, [], ◌∷◌, ◌++◌,
  keep, all, All, arith, append-nil, ◌==◌, Bool-cases,
}
use v10_engine.Prelude.Text.{codes, drop_prefix}
use v10_engine.Store.{Text}
use v10_engine.Migrations.Sql.{
  Section, up, down, after_marker, skip_spaces, drop_word, after_line_feed, is_marker, until_marker,
  is_last_line_feed, parse_section, section_at, strip, strip_all, push, split_semicolons,
  split_statements, is_statement,
}

-- ";".join(parts)
unfoldable pub join_semicolons : List Text → Text
join_semicolons [] = []
join_semicolons (s ∷ []) = s
join_semicolons (s ∷ r ∷ parts) = s ++ b';' ∷ join_semicolons (r ∷ parts)

abbrev pub has_no_semicolon : Text → Bool
has_no_semicolon s = all (λ c. not (c == b';')) s

-- A text with no semicolon goes in front of the first part.
abbrev in_front : Text → List Text → List Text
in_front s [] = s ∷ []
in_front s (r ∷ parts) = (s ++ r) ∷ parts

split_in_front :
    (s t : Text)
    → has_no_semicolon s ≡ true
    → (r : Text) (parts : List Text) → split_semicolons t ≡ r ∷ parts
    → split_semicolons (s ++ t) ≡ (s ++ r) ∷ parts
unfolding split_semicolons
split_in_front [] t h r parts e = e
split_in_front (c ∷ s) t h r parts e = elim (Bool-cases (c == b';')) [
  | inl semi ↦ absurd (ground (arith, h, semi))
  | inr plain ↦
      let ih = split_in_front s t (ground (arith, h)) r parts e in rw plain (ap (push c) ih)
]

pub split-join :
    (s : Text) (parts : List Text)
    → All (λ s. has_no_semicolon s ≡ true) (s ∷ parts)
    → split_semicolons (join_semicolons (s ∷ parts)) ≡ s ∷ parts
unfolding split_semicolons join_semicolons
split-join s [] h =
    ap split_semicolons (sym (append-nil s))
    ∙ split_in_front s [] h.0 [] [] refl
    ∙ ap (λ x. x ∷ []) (append-nil s)
split-join s (r ∷ parts) h =
    split_in_front s (b';' ∷ join_semicolons (r ∷ parts)) h.0 [] (r ∷ parts)
      (ap (λ l. [] ∷ l) (split-join r parts h.1))
    ∙ ap (λ x. x ∷ r ∷ parts) (append-nil s)

-- A statement that stands as it will be read: trimmed, no comment, no semicolon.
pub record Clean (is_space : ℕ → Bool) (s : Text) : Type 0 where
  pub whole : has_no_semicolon s ≡ true
  pub trimmed : strip is_space s ≡ s
  pub statement : is_statement s ≡ true

nothing_split : (is_space : ℕ → Bool) → split_statements is_space (join_semicolons []) ≡ []
unfolding split_statements join_semicolons
nothing_split is_space = refl

module _ (is_space : ℕ → Bool) where
  keep-Clean :
      (stmts : List Text)
      → All (Clean is_space) stmts
      → keep is_statement (strip_all is_space stmts) ≡ stmts
  unfolding strip_all
  keep-Clean [] h = refl
  keep-Clean (s ∷ stmts) h =
      let q : is_statement (strip is_space s) ≡ true =
        ap is_statement h.0.trimmed ∙ h.0.statement in
      rw q (rw (h.0.trimmed, keep-Clean stmts h.1) refl)

  All-whole :
      (stmts : List Text) → All (Clean is_space) stmts → All (λ s. has_no_semicolon s ≡ true) stmts
  All-whole [] h = tt
  All-whole (s ∷ stmts) h = (h.0.whole, All-whole stmts h.1)

  -- Statements that are trimmed, have no semicolon and start no comment are read back from the text
  -- that joins them with semicolons.
  pub split_statements-join :
      (stmts : List Text)
      → All (Clean is_space) stmts
      → split_statements is_space (join_semicolons stmts) ≡ stmts
  unfolding split_statements
  split_statements-join [] h = nothing_split is_space
  split_statements-join (s ∷ stmts) h =
      ap (λ parts. keep is_statement (strip_all is_space parts))
        (split-join s stmts (All-whole (s ∷ stmts) h))
      ∙ keep-Clean (s ∷ stmts) h

  -- No section starts inside of the text, whatever follows it.
  abbrev pub Unmarked : Text → Text → Type 0
  Unmarked [] tail = Unit
  Unmarked (c ∷ s) tail = (is_marker is_space (c ∷ (s ++ tail)) ≡ false) × Unmarked s tail

  until-marker :
      (s : Text) (c : ℕ) (tail : Text)
      → Unmarked s (c ∷ tail)
      → is_marker is_space (c ∷ tail) ≡ true
      → until_marker is_space (s ++ c ∷ tail) ≡ s
  unfolding until_marker
  until-marker [] c tail h m = rw m refl
  until-marker (b ∷ s) c tail h m =
      let q : is_last_line_feed is_space b (s ++ c ∷ tail) ≡ false = not_last b s c tail in
      rw (h.0, q) (ap (λ l. b ∷ l) (until-marker s c tail h.1 m))
    where
      not_last :
          (b : ℕ) (s : Text) (c : ℕ) (tail : Text)
          → is_last_line_feed is_space b (s ++ c ∷ tail) ≡ false
      not_last b [] c tail = refl
      not_last b (d ∷ s) c tail = refl

  -- Nothing before the text's marker is read as this section.
  abbrev pub Unread : Section → Text → Text → Type 0
  Unread sec [] tail = Unit
  Unread sec (c ∷ s) tail = (section_at is_space sec (c ∷ (s ++ tail)) ≡ none) × Unread sec s tail

  parse_section-skip :
      (sec : Section) (s : Text) (tail : Text)
      → Unread sec s tail
      → parse_section is_space sec (s ++ tail) ≡ parse_section is_space sec tail
  unfolding parse_section
  parse_section-skip sec [] tail h = refl
  parse_section-skip sec (c ∷ s) tail h =
      rw (h.0, parse_section) (parse_section-skip sec s tail h.1)

-- What `\s` says of the characters in the two markers.
pub record Blanks (is_space : ℕ → Bool) : Type 0 where
  pub blank : is_space 32 ≡ true
  pub line_feed : is_space 10 ≡ true
  pub letter_u : is_space b'U' ≡ false
  pub letter_d : is_space b'D' ≡ false

module _ (is_space : ℕ → Bool) (b : Blanks is_space) where
  after_marker-up : (t : Text) → after_marker is_space up (codes "-- UP:" ++ t) ≡ some t
  unfolding after_marker skip_spaces drop_prefix drop_word
  after_marker-up t = rw (b.blank, b.letter_u) refl

  after_marker-down : (t : Text) → after_marker is_space down (codes "-- DOWN:" ++ t) ≡ some t
  unfolding after_marker skip_spaces drop_prefix drop_word
  after_marker-down t = rw (b.blank, b.letter_d) refl

  up_of_down : (t : Text) → after_marker is_space up (codes "-- DOWN:" ++ t) ≡ none
  unfolding after_marker skip_spaces drop_prefix drop_word
  up_of_down t = rw (b.blank, b.letter_d) refl

  is_marker-down : (t : Text) → is_marker is_space (codes "-- DOWN:" ++ t) ≡ true
  unfolding is_marker
  is_marker-down t = rw (up_of_down t, is_marker) (rw (after_marker-down t) refl)

  after_line_feed-text :
      (c : ℕ) (t : Text) → is_space c ≡ false → after_line_feed is_space (10 ∷ c ∷ t) ≡ some (c ∷ t)
  unfolding after_line_feed
  after_line_feed-text c t h = rw (b.line_feed, h) refl

  section_at-up :
      (c : ℕ) (t : Text)
      → is_space c ≡ false
      → section_at is_space up (codes "-- UP:" ++ 10 ∷ c ∷ t) ≡ some (until_marker is_space (c ∷ t))
  unfolding section_at
  section_at-up c t h =
      rw (after_marker-up (10 ∷ c ∷ t), section_at) (rw (after_line_feed-text c t h) refl)

  parse_section-found :
      (sec : Section) (c : ℕ) (t body : Text)
      → section_at is_space sec (c ∷ t) ≡ some body
      → parse_section is_space sec (c ∷ t) ≡ body
  unfolding parse_section
  parse_section-found sec c t body h = rw (h, parse_section) refl

  -- Of a file with a front, an UP section and a DOWN section the UP section is read back, if nothing in
  -- the front is read as one, no section starts inside of it, and it does not begin with a blank.
  pub parse_section-up :
      (pre : Text) (c : ℕ) (s rest : Text)
      → let tail = codes "-- DOWN:" ++ rest in
        is_space c ≡ false
        → Unread is_space up pre (codes "-- UP:" ++ 10 ∷ ((c ∷ s) ++ tail))
        → Unmarked is_space (c ∷ s) tail
        → parse_section is_space up (pre ++ (codes "-- UP:" ++ 10 ∷ ((c ∷ s) ++ tail))) ≡ c ∷ s
  parse_section-up pre c s rest h unread unmarked =
      let tail = codes "-- DOWN:" ++ rest in
      parse_section-skip is_space up pre (codes "-- UP:" ++ 10 ∷ ((c ∷ s) ++ tail)) unread
      ∙ parse_section-found up b'-' _ _ (section_at-up c (s ++ tail) h)
      ∙ until-marker is_space (c ∷ s) b'-' (codes "- DOWN:" ++ rest) unmarked (is_marker-down rest)
