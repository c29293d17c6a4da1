-- ===== src/ChangeClassifier/Sections.antt =====
-- What `_extract_sections_from_diff` of engine/ai/change_classifier.py collects.
use v10_engine.Prelude.{
  ℕ, ◌≡◌, refl, Bool, true, false, ◌||◌, ◌==◌, Option, none, some, List, [], ◌∷◌, ◌++◌, All, arith,
  Bool-cases, inl, inr,
}
use v10_engine.Prelude.Text.{codes, is_prefix, text_eq, elem_text}
use v10_engine.Store.{Text}
use v10_engine.Migrations.Sql.{strip}
use v10_engine.ChangeClassifier.{
  is_changed, is_heading, record_section, third_part, heading_or, hunk_section, line_section,
  collect_sections, extract_sections, split_on,
}

text_eq_sym : (s t : Text) → text_eq s t ≡ text_eq t s
unfolding text_eq
text_eq_sym [] [] = refl
text_eq_sym [] (d ∷ t) = refl
text_eq_sym (c ∷ s) [] = refl
text_eq_sym (c ∷ s) (d ∷ t) = ground (arith, text_eq_sym s t)

abbrev pub NoRepeat : List Text → Type 0
NoRepeat [] = Unit
NoRepeat (s ∷ ss) = (elem_text s ss ≡ false) × NoRepeat ss

elem_text-snoc :
    (s x : Text) (ss : List Text) → elem_text s (ss ++ x ∷ []) ≡ (elem_text s ss || text_eq x s)
unfolding elem_text
elem_text-snoc s x [] = ground arith
elem_text-snoc s x (t ∷ ss) = ground (arith, elem_text-snoc s x ss)

NoRepeat-snoc :
    (x : Text) (ss : List Text) → NoRepeat ss → elem_text x ss ≡ false → NoRepeat (ss ++ x ∷ [])
unfolding elem_text
NoRepeat-snoc x [] d new = (refl, tt)
NoRepeat-snoc x (s ∷ ss) d new = (
  rw (elem_text-snoc s x ss, d.0, text_eq_sym x s) (ground arith),
  NoRepeat-snoc x ss d.1 (ground arith),
)

All-snoc : (p : Text → Type 0) (x : Text) (ss : List Text) → All p ss → p x → All p (ss ++ x ∷ [])
All-snoc p x [] a h = (h, tt)
All-snoc p x (s ∷ ss) a h = (a.0, All-snoc p x ss a.1 h)

abbrev pub IsHeading : Text → Type 0
IsHeading s = is_heading s ≡ true

-- The section that is kept from line to line.
abbrev AtHeading : Option Text → Type 0
AtHeading none = Unit
AtHeading (some s) = IsHeading s

-- The headings in the order of their first change, each of them once.
abbrev pub Headings : List Text → Type 0
Headings ss = All IsHeading ss × NoRepeat ss

record_section-Headings :
    (o : Option Text) (ss : List Text) → AtHeading o → Headings ss → Headings (record_section o ss)
unfolding record_section
record_section-Headings none ss h d = d
record_section-Headings (some s) ss h d = elim (Bool-cases (elem_text s ss)) [
  | inl seen ↦ rw seen d
  | inr new ↦ rw new (All-snoc IsHeading s ss d.0 h, NoRepeat-snoc s ss d.1 new)
]

module _ (is_space : ℕ → Bool) where
  heading_or-AtHeading :
      (o part : Option Text) → AtHeading o → AtHeading (heading_or is_space o part)
  unfolding heading_or
  heading_or-AtHeading o none h = h
  heading_or-AtHeading o (some part) h = elim (Bool-cases (is_heading (strip is_space part))) [
    | inl good ↦ rw good good
    | inr bad ↦ rw bad h
  ]

  hunk_section-AtHeading :
      (o : Option Text) (line : Text) → AtHeading o → AtHeading (hunk_section is_space o line)
  unfolding hunk_section
  hunk_section-AtHeading o line h = heading_or-AtHeading o (third_part line) h

  line_section-AtHeading :
      (o : Option Text) (line : Text) → AtHeading o → AtHeading (line_section is_space o line)
  unfolding line_section
  line_section-AtHeading o [] h = h
  line_section-AtHeading o (c ∷ t) h = elim (Bool-cases (is_heading (strip is_space t))) [
    | inl good ↦ elim (Bool-cases (c == b' ' || c == b'-')) [
      | inl met ↦ rw (met, good) good
      | inr other ↦ rw other h
    ]
    | inr bad ↦ elim (Bool-cases (c == b' ' || c == b'-')) [
      | inl met ↦ rw (met, bad) h
      | inr other ↦ rw other h
    ]
  ]

  collect_sections-Headings :
      (lines : List Text) (o : Option Text) (ss : List Text)
      → AtHeading o
      → Headings ss
      → Headings (collect_sections is_space lines o ss)
  unfolding collect_sections
  collect_sections-Headings [] o ss h d = d
  collect_sections-Headings (line ∷ lines) o ss h d =
      let here = hunk_section-AtHeading o line h in
      let there = line_section-AtHeading (hunk_section is_space o line) line here in
      let kept = line_section is_space (hunk_section is_space o line) line in
      elim (Bool-cases (is_prefix (codes "@@") line)) [
        | inl at ↦ rw at (collect_sections-Headings lines (hunk_section is_space o line) ss here d)
        | inr other ↦ rw other (elim (Bool-cases (is_changed line)) [
          | inl met ↦ rw met (
              collect_sections-Headings lines kept (record_section kept ss) there
                (record_section-Headings kept ss there d))
          | inr same ↦ rw same (collect_sections-Headings lines kept ss there d)
        ])
      ]

  -- Whatever the diff is, the sections that it is said to touch are headings of the second or third
  -- level, and none of them is named twice.
  pub extract_sections-Headings : (diff : Text) → Headings (extract_sections is_space diff)
  unfolding extract_sections
  extract_sections-Headings diff = collect_sections-Headings (split_on 10 diff) none [] tt (tt, tt)
