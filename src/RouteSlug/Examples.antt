-- ===== src/RouteSlug/Examples.antt =====
-- Examples for engine/workspace/route_slug.py.
use v10_engine.Prelude.{
  ℕ, ◌+◌, ◌-◌, ◌≡◌, refl, false, ◌&&◌, ◌||◌, some, List, [], ◌∷◌, map, ltb, leb, ◌==◌,
  if◌then◌else◌,
}
use v10_engine.Prelude.Text.{codes, elem_text}
use v10_engine.Store.{Text}
use v10_engine.RouteSlug.{
  Unicode, Page, tsx, collect_parent_slugs, normalize_dynamic_segment, in_brackets,
  duplicates_of_page,
}
use v10_engine.RouteSlug.Fresh.{normalize_dynamic_segment_fresh}
use v10_engine.RouteSlug.Detect.{duplicates_of_page_exact, count_text}

abbrev lower_char : ℕ → ℕ
lower_char c = if leb b'A' c && leb c b'Z' then c + 32 else c

abbrev upper_char : ℕ → ℕ
upper_char c = if leb b'a' c && leb c b'z' then c - 32 else c

abbrev capital : Text → Text
capital [] = []
capital (c ∷ s) = upper_char c ∷ map lower_char s

-- The ASCII part of the tables.
abbrev ascii : Unicode
ascii = record {
  is_word = λ c.
      leb b'0' c && leb c b'9' || leb b'A' c && leb c b'Z' || leb b'a' c && leb c b'z' || c == b'_';
  is_space = λ c. c == 32;
  lower = map lower_char;
  capitalize = capital;
}

abbrev parent : List Text
parent = codes "users" ∷ codes "[id]" ∷ codes "care-logs" ∷ []

normalize_dynamic_segment_fresh_example :
    (s : Text) × (normalize_dynamic_segment ascii parent (codes "care-logs") (codes "id")
      ≡ some (in_brackets s))
    × (elem_text s (collect_parent_slugs ascii parent) ≡ false)
normalize_dynamic_segment_fresh_example =
    normalize_dynamic_segment_fresh ascii parent (codes "care-logs") (codes "id")

normalize_parent :
    normalize_dynamic_segment ascii parent (codes "care-logs") (codes "id")
    ≡ some (codes "[careLogId]")
unfolding normalize_dynamic_segment
normalize_parent = refl

abbrev page : Page
page = record { suffix = tsx; parts = codes "[id]" ∷ codes "notes" ∷ codes "[id]" ∷ [] }

duplicates_of_page_exact_example :
    elem_text (codes "id") (map (λ d. d.duplicated_slug) (duplicates_of_page ascii page))
    ≡ ltb 1 (count_text (codes "id") (collect_parent_slugs ascii page.parts))
duplicates_of_page_exact_example = duplicates_of_page_exact ascii page (codes "id") refl
