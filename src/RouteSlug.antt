-- ===== src/RouteSlug.antt =====
-- engine/workspace/route_slug.py: names for the dynamic segments of Next.js routes. A path is the list
-- of its parts; the tests and mappings of characters that Python takes from Unicode are a parameter.
pub mod Fresh
pub mod Detect
mod Examples
use v10_engine.Prelude.{
  ℕ, zero, suc, ◌+◌, ◌<◌, Bool, true, false, not, ◌&&◌, ◌||◌, Option, none, some, List, [], ◌∷◌,
  ◌++◌, map, length, keep, ltb, ◌==◌, if◌then◌else◌,
}
use v10_engine.Prelude.Text.{codes, text_eq, elem_text, drop_prefix, take}
use v10_engine.Prelude.Decimal.{decimal}
use v10_engine.Store.{Text}

-- `\w`, `\s`, str.lower and str.capitalize.
pub record Unicode : Type 0 where
  pub is_word : ℕ → Bool
  pub is_space : ℕ → Bool
  pub lower : Text → Text
  pub capitalize : Text → Text

pub data Suffix : Type 0 where
  tsx ts jsx js other : Suffix

-- A file that the walk over the application finds: `page.*`, and its folder below the root.
pub record Page : Type 0 where
  pub suffix : Suffix
  pub parts : List Text

pub record DuplicateSlug : Type 0 where
  pub route_path : List Text
  pub duplicated_slug : Text
  pub occurrences : List (List Text)

-- The longest front of word characters, and the rest.
unfoldable pub span : (ℕ → Bool) → Text → Text × Text
span p [] = ([], [])
span p (c ∷ s) = let (front, rest) = span p s in if p c then (c ∷ front, rest) else ([], c ∷ s)

-- `\]$`: the end, or a line feed that ends the text.
abbrev pub closes : Text → Bool
closes s = text_eq s (codes "]") || text_eq s (b']' ∷ 10 ∷ [])

abbrev pub inner : Text → Option Text
inner s = elim (drop_prefix (codes "...") s) [ some rest ↦ some rest | none ↦ some s ]

abbrev push : ℕ → List Text → List Text
push c [] = (c ∷ []) ∷ []
push c (w ∷ ws) = (c ∷ w) ∷ ws

abbrev is_text : Text → Bool
is_text [] = false
is_text (c ∷ s) = true

concat : List Text → Text
concat [] = []
concat (s ∷ texts) = s ++ concat texts

module _ (u : Unicode) where
  -- m.group(2) of `^\[(\.{3})?(\w+)\]$`
  unfoldable pub word_closed : Text → Option Text
  unfolding span text_eq
  word_closed s =
      let (word, rest) = span u.is_word s in
      elim word [ [] ↦ none | c ∷ w ↦ if closes rest then some (c ∷ w) else none ]

  unfoldable pub after_bracket : Text → Option Text
  unfolding word_closed drop_prefix
  after_bracket s = elim (drop_prefix (codes "...") s) [
    | some rest ↦ word_closed rest
    | none ↦ word_closed s
  ]

  unfoldable pub slug_of : Text → Option Text
  unfolding after_bracket
  slug_of [] = none
  slug_of (c ∷ s) = if c == b'[' then after_bracket s else none

  -- The slugs of a path, in its order; the code keeps them as a set.
  unfoldable pub collect_parent_slugs : List Text → List Text
  unfolding slug_of
  collect_parent_slugs [] = []
  collect_parent_slugs (part ∷ parts) =
      let rest = collect_parent_slugs parts in
      elim (slug_of part) [ none ↦ rest | some s ↦ s ∷ rest ]

  -- The words between separators; the code strips the text and drops the empty words.
  -- [p for p in re.split(r"[-_\s]+", text.strip()) if p]
  is_separator : ℕ → Bool
  is_separator c = c == b'-' || c == b'_' || u.is_space c

  unfoldable pub split_words : Text → List Text
  unfolding is_separator
  split_words [] = [] ∷ []
  split_words (c ∷ s) = let ws = split_words s in if is_separator c then [] ∷ ws else push c ws

-- t[:-len(s)] where t.endswith(s)
unfoldable pub drop_suffix : Text → Text → Option Text
unfolding text_eq
drop_suffix s [] = if text_eq [] s then some [] else none
drop_suffix s (c ∷ t) =
    let rest = drop_suffix s t in
    if text_eq (c ∷ t) s then some [] else elim rest [ none ↦ none | some r ↦ some (c ∷ r) ]

abbrev ends_with : Text → Text → Bool
ends_with s t = elim (drop_suffix s t) [ none ↦ false | some _ ↦ true ]

abbrev without_suffix : Text → Text → Text
without_suffix s t = elim (drop_suffix s t) [ none ↦ t | some r ↦ r ]

-- A plain singular.
unfoldable pub singular : Text → Text
unfolding drop_suffix
singular camel =
    if ends_with (codes "ies") camel && ltb 3 (length camel)
    then without_suffix (codes "ies") camel ++ codes "y"
    else if ends_with (codes "ses") camel || ends_with (codes "xes") camel
    then without_suffix (codes "es") camel
    else if ends_with (codes "s") camel && not (ends_with (codes "ss") camel)
    then without_suffix (codes "s") camel
    else camel

abbrev or_item : Text → Text
or_item [] = codes "item"
or_item (c ∷ t) = c ∷ t

module _ (u : Unicode) where
  unfoldable pub to_camel_case : Text → Text
  unfolding split_words singular concat
  to_camel_case text = elim (keep is_text (split_words u text)) [
    | [] ↦ codes "item"
    | head ∷ tail ↦ or_item (singular (u.lower head ++ concat (map u.capitalize tail)))
  ]

-- while candidate in existing: candidate = f"{base}{n}"; n += 1
unfoldable pub search_candidate : ℕ → Text → List Text → Text → ℕ → Option Text
unfolding elem_text decimal
search_candidate zero base existing candidate n = none
search_candidate (suc fuel) base existing candidate n =
    let rest = search_candidate fuel base existing (base ++ decimal n) (suc n) in
    if elem_text candidate existing then rest else some candidate

abbrev pub in_brackets : Text → Text
in_brackets s = codes "[" ++ s ++ codes "]"

module _ (u : Unicode) where
  -- The name without its brackets. There is one round more than there are slugs above.
  unfoldable pub choose_slug : List Text → Text → Text → Option Text
  unfolding collect_parent_slugs to_camel_case search_candidate
  choose_slug parent resource default =
      let existing = collect_parent_slugs u parent in
      let base = to_camel_case u resource ++ codes "Id" in
      if elem_text default existing
      then search_candidate (suc (length existing)) base existing base 2
      else some default

  unfoldable pub normalize_dynamic_segment : List Text → Text → Text → Option Text
  unfolding choose_slug
  normalize_dynamic_segment parent resource default = elim (choose_slug parent resource default) [
    | none ↦ none
    | some s ↦ some (in_brackets s)
  ]

-- seen.setdefault(slug, []).append(dir_path)
unfoldable pub add_seen :
    Text → List Text → List (Text × List (List Text)) → List (Text × List (List Text))
unfolding text_eq
add_seen s path [] = (s, path ∷ []) ∷ []
add_seen s path ((t, paths) ∷ seen) =
    if text_eq t s then (t, paths ++ path ∷ []) ∷ seen else (t, paths) ∷ add_seen s path seen

abbrev pub is_script : Suffix → Bool
is_script other = false
is_script _ = true

-- for slug, occurrences in seen.items(): if len(occurrences) > 1
unfoldable pub repeated : List Text → List (Text × List (List Text)) → List DuplicateSlug
repeated route [] = []
repeated route ((s, paths) ∷ seen) =
    let rest = repeated route seen in
    if ltb 1 (length paths)
    then record { route_path = route; duplicated_slug = s; occurrences = paths } ∷ rest
    else rest

module _ (u : Unicode) where
  -- for idx, part in enumerate(rel.parts)
  unfoldable pub seen_slugs :
      List Text → List Text → List (Text × List (List Text)) → List (Text × List (List Text))
  unfolding add_seen slug_of
  seen_slugs before [] seen = seen
  seen_slugs before (part ∷ parts) seen =
      let path = before ++ part ∷ [] in
      let seen' : List (Text × List (List Text)) = elim (slug_of u part) [
        | none ↦ seen
        | some s ↦ add_seen s path seen
      ] in
      seen_slugs path parts seen'

  unfoldable pub duplicates_of_page : Page → List DuplicateSlug
  unfolding repeated seen_slugs
  duplicates_of_page page =
      if is_script page.suffix then repeated page.parts (seen_slugs [] page.parts []) else []

  unfoldable pub detect_duplicate_slugs : List Page → List DuplicateSlug
  unfolding duplicates_of_page
  detect_duplicate_slugs [] = []
  detect_duplicate_slugs (page ∷ pages) = duplicates_of_page page ++ detect_duplicate_slugs pages

-- occ.parent and occ.name; the name of an empty path is empty.
unfoldable pub parent_of : List Text → List Text
parent_of [] = []
parent_of (p ∷ []) = []
parent_of (p ∷ q ∷ parts) = p ∷ parent_of (q ∷ parts)

unfoldable pub name_of : List Text → Text
name_of [] = []
name_of (p ∷ []) = p
name_of (p ∷ q ∷ parts) = name_of (q ∷ parts)

module _ (u : Unicode) where
  unfoldable pub suggestion : Text → List Text → Option Text
  unfolding normalize_dynamic_segment parent_of name_of
  suggestion slug occ =
      normalize_dynamic_segment u (parent_of (parent_of occ)) (name_of (parent_of occ)) slug

  abbrev rest_of : List (List Text) → List (List Text)
  rest_of [] = []
  rest_of (o ∷ os) = os

  unfoldable pub suggest_rename : DuplicateSlug → List (List Text × Option Text)
  unfolding suggestion
  suggest_rename dup =
      map (λ occ. (occ, suggestion dup.duplicated_slug occ)) (rest_of dup.occurrences)
