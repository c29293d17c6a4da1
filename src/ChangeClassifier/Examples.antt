-- ===== src/ChangeClassifier/Examples.antt =====
-- Examples for engine/ai/change_classifier.py, on a line that is added to one section.
use v10_engine.Prelude.{ℕ, ◌≡◌, refl, Bool, ◌||◌, none, ◌∷◌, [], ◌++◌, ◌==◌}
use v10_engine.Prelude.Text.{codes}
use v10_engine.Store.{Text}
use v10_engine.ChangeClassifier.{extract_sections, classify_change}
use v10_engine.ChangeClassifier.Sections.{Headings, extract_sections-Headings}
use v10_engine.ChangeClassifier.Rules.{Patches, classify_change-Patches}

abbrev blank : ℕ → Bool
blank c = c == 32 || c == 10

abbrev one_line_added : Text
one_line_added = codes "@@ -9,2 +9,3 @@ ## Login API" ++ 10 ∷ codes "+token"

abbrev old_page : Text
old_page =
    codes "a"
    ++ 10 ∷ codes "b"
    ++ 10 ∷ codes "c"
    ++ 10 ∷ codes "d"
    ++ 10 ∷ codes "e"
    ++ 10 ∷ codes "f"

sections_of_line : extract_sections blank one_line_added ≡ codes "## Login API" ∷ []
unfolding extract_sections
sections_of_line = refl

extract_sections-Headings_example : Headings (extract_sections blank one_line_added)
extract_sections-Headings_example = extract_sections-Headings blank one_line_added

classify_change-Patches_example :
    Patches blank
      (λ t. t)
      (λ t. t)
      (λ t. none)
      (λ t. none)
      one_line_added
      (codes "Page")
      (codes "TASK")
      old_page
      (classify_change blank
        (λ t. t)
        (λ t. t)
        (λ t. none)
        (λ t. none)
        one_line_added
        (codes "Page")
        (codes "TASK")
        old_page)
unfolding classify_change
classify_change-Patches_example =
    classify_change-Patches blank (λ t. t) (λ t. t) (λ t. none) (λ t. none) one_line_added
      (codes "Page") (codes "TASK") old_page refl
