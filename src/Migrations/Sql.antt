-- ===== src/Migrations/Sql.antt =====
-- The reading of migration files in engine/db/migrations/runner.py: sections, statements, description.
-- Which characters are blanks is a parameter.
use v10_engine.Prelude.{
  ℕ, ◌+◌, Bool, true, false, not, ◌&&◌, ◌||◌, Option, none, some, List, [], ◌∷◌, keep, leb, ◌==◌,
  if◌then◌else◌,
}
use v10_engine.Prelude.Text.{codes, drop_prefix, take}
use v10_engine.Store.{Text}

abbrev lower : ℕ → ℕ
lower c = if leb b'A' c && leb c b'Z' then c + 32 else c

-- A word without regard to case, and what follows it; the word is in lower case.
unfoldable pub drop_word : Text → Text → Option Text
drop_word [] t = some t
drop_word (c ∷ s) [] = none
drop_word (c ∷ s) (d ∷ t) = if c == lower d then drop_word s t else none

pub data Section : Type 0 where
  up down : Section

abbrev keyword : Section → Text
keyword up = codes "up:"
keyword down = codes "down:"

module _ (is_space : ℕ → Bool) where
  unfoldable pub skip_spaces : Text → Text
  skip_spaces [] = []
  skip_spaces (c ∷ t) = if is_space c then skip_spaces t else c ∷ t

  -- `--\s*UP:` at the front, and what follows it.
  unfoldable pub after_marker : Section → Text → Option Text
  unfolding drop_word skip_spaces drop_prefix
  after_marker s t = elim (drop_prefix (codes "--") t) [
    | none ↦ none
    | some rest ↦ drop_word (keyword s) (skip_spaces rest)
  ]

  -- `\s*\n`, greedy: what follows the last line feed of the blanks at the front.
  unfoldable pub after_line_feed : Text → Option Text
  after_line_feed [] = none
  after_line_feed (c ∷ t) =
      let later = after_line_feed t in
      if is_space c
      then elim later [ some rest ↦ some rest | none ↦ if c == 10 then some t else none ]
      else none

  unfoldable pub is_marker : Text → Bool
  unfolding after_marker
  is_marker t = elim (after_marker up t) [
    | some _ ↦ true
    | none ↦ elim (after_marker down t) [ some _ ↦ true | none ↦ false ]
  ]

  -- `$`: the end, or the line feed that ends the text.
  abbrev pub is_last_line_feed : ℕ → Text → Bool
  is_last_line_feed c [] = c == 10
  is_last_line_feed c (d ∷ t) = false

  -- `(.*?)(?=--\s*(?:UP|DOWN):|$)`
  unfoldable pub until_marker : Text → Text
  unfolding is_marker
  until_marker [] = []
  until_marker (c ∷ t) =
      let rest = until_marker t in
      if is_marker (c ∷ t) || is_last_line_feed c t then [] else c ∷ rest

  unfoldable pub section_at : Section → Text → Option Text
  unfolding until_marker after_line_feed after_marker
  section_at s t = elim (after_marker s t) [
    | none ↦ none
    | some rest ↦ elim (after_line_feed rest) [ none ↦ none | some body ↦ some (until_marker body) ]
  ]

  -- pattern.search: the first place where it matches; no match gives the empty text.
  unfoldable pub parse_section : Section → Text → Text
  unfolding section_at
  parse_section s [] = []
  parse_section s (c ∷ t) =
      let rest = parse_section s t in elim (section_at s (c ∷ t)) [ some body ↦ body | none ↦ rest ]

  -- str.rstrip
  unfoldable pub strip_end : Text → Text
  strip_end [] = []
  strip_end (c ∷ t) = elim (strip_end t) [
    | [] ↦ if is_space c then [] else c ∷ []
    | d ∷ r ↦ c ∷ d ∷ r
  ]

  unfoldable pub strip : Text → Text
  unfolding skip_spaces strip_end
  strip t = strip_end (skip_spaces t)

abbrev pub push : ℕ → List Text → List Text
push c [] = (c ∷ []) ∷ []
push c (w ∷ ws) = (c ∷ w) ∷ ws

-- sql.split(";")
unfoldable pub split_semicolons : Text → List Text
split_semicolons [] = [] ∷ []
split_semicolons (c ∷ t) =
    let parts = split_semicolons t in if c == b';' then [] ∷ parts else push c parts

abbrev pub starts_comment : Text → Bool
starts_comment (a ∷ b ∷ t) = a == b'-' && b == b'-'
starts_comment _ = false

-- stmt and not stmt.startswith("--")
abbrev pub is_statement : Text → Bool
is_statement [] = false
is_statement (c ∷ t) = not (starts_comment (c ∷ t))

unfoldable pub strip_all : (ℕ → Bool) → List Text → List Text
unfolding strip
strip_all is_space [] = []
strip_all is_space (s ∷ parts) = strip is_space s ∷ strip_all is_space parts

unfoldable pub split_statements : (ℕ → Bool) → Text → List Text
unfolding split_semicolons strip_all
split_statements is_space sql = keep is_statement (strip_all is_space (split_semicolons sql))

-- The line ends of str.splitlines.
abbrev is_line_end : ℕ → Bool
is_line_end c = leb 10 c && leb c 13 || leb 28 c && leb c 30 || c == 133 || c == 8232 || c == 8233

unfoldable pub split_lines : Text → List Text
split_lines [] = [] ∷ []
split_lines (c ∷ t) =
    let parts = split_lines t in if is_line_end c then [] ∷ parts else push c parts

unfoldable pub drop_dashes : Text → Text
drop_dashes [] = []
drop_dashes (c ∷ t) = if c == b'-' then drop_dashes t else c ∷ t

unfoldable pub first_comment : (ℕ → Bool) → List Text → Text
unfolding strip drop_dashes take
first_comment is_space [] = []
first_comment is_space (l ∷ lines) =
    let rest = first_comment is_space lines in
    if starts_comment (strip is_space l)
    then elim (strip is_space (drop_dashes (strip is_space l))) [
      | [] ↦ rest
      | c ∷ d ↦ take 200 (c ∷ d)
    ]
    else rest

unfoldable pub extract_description : (ℕ → Bool) → Text → Text
unfolding split_lines first_comment
extract_description is_space sql = first_comment is_space (split_lines sql)
