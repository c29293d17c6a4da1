-- ===== src/ChangeClassifier.antt =====
-- The classification of a change, engine/ai/change_classifier.py: `generate_diff`, the rules that
-- need no model, and `classify_change`. Texts are lists of code points; the Unicode tables behind
-- strip, lower and upper, the diff of difflib, the model's reply and its reading as JSON are
-- parameters. The confidence and the reason of a result, which no caller reads, are left out.
pub mod Sections
pub mod Rules
mod Examples
use v10_engine.Prelude.{
  ℕ, ◌*◌, Bool, true, false, not, ◌&&◌, ◌||◌, Option, none, some, List, [], ◌∷◌, ◌++◌, length, keep,
  any, map, ltb, leb, ◌==◌, if◌then◌else◌,
}
use v10_engine.Prelude.Text.{codes, is_prefix, is_infix, text_eq, elem_text, drop_prefix, take}
use v10_engine.Store.{Text, ChangeType, contextual, partial_change}
use v10_engine.Migrations.Sql.{skip_spaces, strip, push}

pub record Classification : Type 0 where
  pub change_type : ChangeType
  pub affected_sections : List Text

-- What is read from a reply of the model; `is_confident` says that the confidence is not below
-- CONFIDENCE_THRESHOLD.
pub record Answer : Type 0 where
  pub type_name : Text
  pub is_confident : Bool
  pub sections : List Text

abbrev pub all_again : Classification
all_again = record { change_type = contextual; affected_sections = [] }

-- The boundaries of str.splitlines.
abbrev is_break : ℕ → Bool
is_break c = (leb 10 c && leb c 13) || (leb 28 c && leb c 30) || c == 133 || c == 8232 || c == 8233

abbrev pub starts_with : ℕ → Text → Bool
starts_with d [] = false
starts_with d (c ∷ t) = c == d

abbrev longer_first : ℕ → List Text → List Text
longer_first c [] = (c ∷ []) ∷ []
longer_first c (l ∷ ls) = (c ∷ l) ∷ ls

-- str.splitlines: a carriage return before a line feed is no boundary of its own.
unfoldable pub splitlines : Text → List Text
splitlines [] = []
splitlines (c ∷ t) =
    let rest = splitlines t in
    if is_break c
    then (if c == 13 && starts_with 10 t then rest else [] ∷ rest)
    else longer_first c rest

-- "\n".join(lines), and " ".join.
unfoldable pub join_with : ℕ → List Text → Text
join_with c [] = []
join_with c (l ∷ []) = l
join_with c (l ∷ m ∷ ls) = l ++ c ∷ join_with c (m ∷ ls)

-- `generate_diff`, where `unified_diff` is that of difflib.
unfoldable pub generate_diff : (List Text → List Text → List Text) → Text → Text → Text
unfolding text_eq splitlines join_with
generate_diff unified_diff old new =
    let lines = unified_diff (splitlines old) (splitlines new) in
    if text_eq old new
    then []
    else elim lines [ [] ↦ [] | l ∷ ls ↦ join_with 10 (l ∷ ls) ++ 10 ∷ [] ]

-- text.split(c)
unfoldable pub split_on : ℕ → Text → List Text
split_on c [] = [] ∷ []
split_on c (d ∷ t) = let parts = split_on c t in if d == c then [] ∷ parts else push d parts

abbrev pub tail_of : Text → Text
tail_of [] = []
tail_of (c ∷ t) = t

-- A line of the diff that adds or removes, its two header lines apart.
unfoldable pub is_changed : Text → Bool
unfolding is_prefix
is_changed [] = false
is_changed (c ∷ t) =
    (c == b'+' || c == b'-')
    && not (is_prefix (codes "+++") (c ∷ t))
    && not (is_prefix (codes "---") (c ∷ t))

unfoldable pub is_heading : Text → Bool
unfolding is_prefix
is_heading t = is_prefix (codes "## ") t || is_prefix (codes "### ") t

-- `seen` and `sections` hold the same headings.
unfoldable pub record_section : Option Text → List Text → List Text
unfolding elem_text
record_section none sections = sections
record_section (some s) sections = if elem_text s sections then sections else sections ++ s ∷ []

-- split("@@"): the third part, when there is one.
unfoldable pub after_ats : Text → Option Text
unfolding drop_prefix
after_ats [] = none
after_ats (c ∷ t) =
    let later = after_ats t in
    elim (drop_prefix (codes "@@") (c ∷ t)) [ some rest ↦ some rest | none ↦ later ]

unfoldable pub before_ats : Text → Text
unfolding is_prefix
before_ats [] = []
before_ats (c ∷ t) =
    let rest = before_ats t in if is_prefix (codes "@@") (c ∷ t) then [] else c ∷ rest

unfoldable pub third_part : Text → Option Text
unfolding after_ats before_ats
third_part t = elim (after_ats t) [
  | none ↦ none
  | some rest ↦ elim (after_ats rest) [ none ↦ none | some last ↦ some (before_ats last) ]
]

module _ (is_space : ℕ → Bool) where
  unfoldable pub heading_or : Option Text → Option Text → Option Text
  unfolding strip is_heading
  heading_or current none = current
  heading_or current (some part) =
      if is_heading (strip is_space part) then some (strip is_space part) else current

  -- What a hunk header says of the section.
  unfoldable pub hunk_section : Option Text → Text → Option Text
  unfolding third_part heading_or
  hunk_section current line = heading_or current (third_part line)

  -- A heading on a line that is kept or removed.
  unfoldable pub line_section : Option Text → Text → Option Text
  unfolding strip is_heading
  line_section current [] = current
  line_section current (c ∷ t) =
      if (c == b' ' || c == b'-') && is_heading (strip is_space t)
      then some (strip is_space t)
      else current

  -- The loop of `_extract_sections_from_diff`.
  unfoldable pub collect_sections : List Text → Option Text → List Text → List Text
  unfolding hunk_section line_section is_changed record_section is_prefix
  collect_sections [] current sections = sections
  collect_sections (line ∷ lines) current sections =
      let here = hunk_section current line in
      let there = line_section here line in
      if is_prefix (codes "@@") line
      then collect_sections lines here sections
      else collect_sections lines there
          (if is_changed line then record_section there sections else sections)

  unfoldable pub extract_sections : Text → List Text
  unfolding collect_sections split_on
  extract_sections diff = collect_sections (split_on 10 diff) none []

abbrev pub contextual_keywords : List Text
contextual_keywords =
    codes "아키텍처"
    ∷ codes "기술 스택"
    ∷ codes "전면"
    ∷ codes "교체"
    ∷ codes "재설계"
    ∷ codes "전환"
    ∷ codes "architecture"
    ∷ codes "rewrite"
    ∷ codes "redesign"
    ∷ codes "migration"
    ∷ codes "overhaul"
    ∷ codes "기반 변경"
    ∷ codes "플랫폼 변경"
    ∷ codes "프레임워크 변경"
    ∷ []

abbrev pub partial_max_changed_lines : ℕ
partial_max_changed_lines = 15

abbrev pub contextual_max_heading_change : ℕ
contextual_max_heading_change = 2

unfoldable pub changed_lines : Text → List Text
unfolding split_on is_changed
changed_lines diff = keep is_changed (split_on 10 diff)

abbrev pub removes : Text → Bool
removes line = starts_with b'-' line

abbrev pub or_ask : Option Classification → Classification → Classification
or_ask (some found) asked = found
or_ask none asked = asked

abbrev pub is_empty : Text → Bool
is_empty [] = true
is_empty (c ∷ t) = false

module _ (is_space : ℕ → Bool) (lower : Text → Text) where
  unfoldable pub is_heading_change : Text → Bool
  unfolding skip_spaces is_heading
  is_heading_change line = is_heading (skip_spaces is_space (tail_of line))

  unfoldable pub has_risky_keyword : List Text → Bool
  unfolding join_with is_infix
  has_risky_keyword lines =
      let removed_text = lower (join_with b' ' (map tail_of (keep removes lines))) in
      any (λ kw. is_infix kw removed_text) contextual_keywords

  -- The share of changed lines of the old content against 40% and 20%: a quotient of two numbers of
  -- lines is on the same side of the two literals in floating point as in the rationals.
  unfoldable pub is_major : ℕ → ℕ → Bool
  is_major changed total = ltb 0 total && ltb (2 * total) (5 * changed)

  unfoldable pub is_minor : ℕ → ℕ → Bool
  is_minor changed total = if ltb 0 total then ltb (5 * changed) total else leb changed 5

  -- len(removed) <= max(changed_count * 0.1, 2)
  unfoldable pub is_mostly_added : ℕ → ℕ → Bool
  is_mostly_added removed changed = leb (10 * removed) changed || leb removed 2

  -- PARTIAL needs a section to patch.
  unfoldable pub patch_of : List Text → Option Classification
  patch_of [] = none
  patch_of (s ∷ ss) = some (record { change_type = partial_change; affected_sections = s ∷ ss })

  -- The rules for PARTIAL.
  unfoldable pub partial_rule : Text → ℕ → ℕ → ℕ → Option Classification
  unfolding is_minor extract_sections patch_of
  partial_rule diff changed headings total =
      if leb changed partial_max_changed_lines && headings == 0 && is_minor changed total
      then patch_of (extract_sections is_space diff)
      else none

  -- `_heuristic_classify`
  unfoldable pub heuristic_classify : Text → Text → Option Classification
  unfolding changed_lines is_heading_change has_risky_keyword is_major is_mostly_added partial_rule
      splitlines
  heuristic_classify diff old_content =
      let lines = changed_lines diff in
      let changed = length lines in
      let headings = length (keep is_heading_change lines) in
      let total = length (splitlines old_content) in
      if has_risky_keyword lines
      then some all_again
      else if ltb contextual_max_heading_change headings
      then some all_again
      else if is_major changed total && not (is_mostly_added (length (keep removes lines)) changed)
      then some all_again
      else partial_rule diff changed headings total

  -- diff[:3000], with a mark when more was there.
  unfoldable pub truncated : Text → Text
  unfolding take
  truncated diff =
      if ltb 3000 (length diff)
      then take 3000 diff ++ 10 ∷ codes "... (truncated)"
      else take 3000 diff

  -- The code block around a reply is taken away.
  unfoldable pub unfenced : Text → Text
  unfolding strip is_prefix split_on join_with
  unfenced content =
      let raw = strip is_space content in
      if is_prefix (codes "```") raw
      then strip is_space
          (join_with 10 (keep (λ l. not (is_prefix (codes "```") l)) (split_on 10 raw)))
      else raw

  -- What is made of a reply that could be read.
  unfoldable pub patch_or_all : List Text → Classification
  patch_or_all [] = all_again
  patch_or_all (s ∷ ss) = record { change_type = partial_change; affected_sections = s ∷ ss }

  unfoldable pub judge : Answer → Classification
  unfolding text_eq patch_or_all
  judge answer =
      if not answer.is_confident
      then all_again
      else if text_eq answer.type_name (codes "PARTIAL")
      then patch_or_all answer.sections
      else record { change_type = contextual; affected_sections = answer.sections }

  abbrev judge_read : Option Answer → Classification
  judge_read none = all_again
  judge_read (some answer) = judge answer

  abbrev judge_reply : (Text → Option Answer) → Option Text → Classification
  judge_reply loads none = all_again
  judge_reply loads (some content) = judge_read (loads (unfenced content))

  -- The call of the model, with the diff that it is shown: `call` gives the content of the reply
  -- and `loads` what its JSON says; `none` stands for an exception, which is caught.
  unfoldable pub ask_model : (Text → Option Text) → (Text → Option Answer) → Text → Classification
  unfolding truncated unfenced judge
  ask_model call loads diff = judge_reply loads (call (truncated diff))

  -- `classify_change`
  unfoldable pub classify_change :
      (Text → Text)
      → (Text → Option Text)
      → (Text → Option Answer)
      → Text
      → Text
      → Text
      → Text
      → Classification
  unfolding strip is_infix is_prefix heuristic_classify ask_model
  classify_change upper call loads diff name node_type old_content =
      if is_empty (strip is_space diff)
      then all_again
      else if is_infix (codes "QA") (upper node_type) || is_prefix (codes "[QA]") name
      then all_again
      else or_ask (heuristic_classify diff old_content) (ask_model call loads diff)
