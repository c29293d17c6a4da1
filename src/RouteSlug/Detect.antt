-- ===== src/RouteSlug/Detect.antt =====
-- What detect_duplicate_slugs and suggest_rename (engine/workspace/route_slug.py) report.
use v10_engine.Prelude.{
  ℕ, ◌+◌, ◌≡◌, refl, ap, ◌∙◌, inl, inr, true, false, ◌||◌, some, List, [], ◌∷◌, ◌++◌, arith, map,
  ltb, length, length-append, if◌then◌else◌, Bool-cases, Option-cases,
}
use v10_engine.Prelude.Text.{text_eq, text_eq_refl, eq_of_text_eq, elem_text}
use v10_engine.Store.{Text}
use v10_engine.RouteSlug.{
  Unicode, Page, is_script, slug_of, collect_parent_slugs, add_seen, seen_slugs, repeated,
  duplicates_of_page, choose_slug, normalize_dynamic_segment, in_brackets, parent_of, name_of,
  suggestion,
}

-- How often a text occurs.
unfoldable pub count_text : Text → List Text → ℕ
count_text s [] = 0
count_text s (t ∷ texts) = (if text_eq t s then 1 else 0) + count_text s texts

abbrev Seen : Type 0
Seen = List (Text × List (List Text))

abbrev keys_of : Seen → List Text
keys_of [] = []
keys_of ((t, paths) ∷ seen) = t ∷ keys_of seen

times : Text → Seen → ℕ
times s [] = 0
times s ((t, paths) ∷ seen) = if text_eq t s then length paths else times s seen

abbrev DistinctKeys : Seen → Type 0
DistinctKeys [] = Unit
DistinctKeys ((t, paths) ∷ seen) = (elem_text t (keys_of seen) ≡ false) × DistinctKeys seen

text_eq_other : (s t r : Text) → text_eq t s ≡ true → text_eq t r ≡ false → text_eq s r ≡ false
text_eq_other s t r e h = rw (← eq_of_text_eq t s e) h

times-add_seen :
    (s : Text) (path : List Text) (seen : Seen) (r : Text)
    → times r (add_seen s path seen) ≡ (if text_eq s r then 1 else 0) + times r seen
unfolding times add_seen
times-add_seen s path [] r = elim (Bool-cases (text_eq s r)) [
  | inl e ↦ rw e refl
  | inr e ↦ rw e refl
]
times-add_seen s path ((t, paths) ∷ seen) r = elim (Bool-cases (text_eq t s)) [
  | inl e ↦
      let q : text_eq t r ≡ text_eq s r = ap (λ x. text_eq x r) (eq_of_text_eq t s e) in
      rw (e, q)
        (elim (Bool-cases (text_eq s r)) [
          | inl h ↦ rw h (omega (arith, length-append paths (path ∷ [])))
          | inr h ↦ rw h (omega arith)
        ])
  | inr e ↦ rw e (elim (Bool-cases (text_eq t r)) [
    | inl h ↦
        let q : text_eq s r ≡ false = elim (Bool-cases (text_eq s r)) [
          | inr n ↦ n
          | inl y ↦
              let z = rw (eq_of_text_eq t r h, ← eq_of_text_eq s r y, text_eq_refl s) at e in
              absurd (ground arith)
        ] in
        rw (h, q) (omega arith)
    | inr h ↦ rw h (times-add_seen s path seen r)
  ])
]

elem-keys_of-add_seen :
    (s : Text) (path : List Text) (seen : Seen) (r : Text)
    → text_eq s r ≡ false
    → elem_text r (keys_of (add_seen s path seen)) ≡ elem_text r (keys_of seen)
unfolding add_seen elem_text
elem-keys_of-add_seen s path [] r h = rw h refl
elem-keys_of-add_seen s path ((t, paths) ∷ seen) r h = elim (Bool-cases (text_eq t s)) [
  | inl e ↦ rw e refl
  | inr e ↦ rw e (ap (λ b. text_eq t r || b) (elem-keys_of-add_seen s path seen r h))
]

text_eq_sym : (s t : Text) → text_eq s t ≡ false → text_eq t s ≡ false
text_eq_sym s t h = elim (Bool-cases (text_eq t s)) [
  | inr n ↦ n
  | inl y ↦ let z = rw (eq_of_text_eq t s y, text_eq_refl s) at h in absurd (ground arith)
]

add_seen-DistinctKeys :
    (s : Text) (path : List Text) (seen : Seen)
    → DistinctKeys seen
    → DistinctKeys (add_seen s path seen)
unfolding add_seen elem_text
add_seen-DistinctKeys s path [] d = (refl, tt)
add_seen-DistinctKeys s path ((t, paths) ∷ seen) d = elim (Bool-cases (text_eq t s)) [
  | inl e ↦ rw e d
  | inr e ↦ rw e (
    elem-keys_of-add_seen s path seen t (text_eq_sym t s e) ∙ d.0,
    add_seen-DistinctKeys s path seen d.1,
  )
]

elem-repeated :
    (route : List Text) (seen : Seen) (s : Text)
    → DistinctKeys seen
    → elem_text s (map (λ d. d.duplicated_slug) (repeated route seen)) ≡ ltb 1 (times s seen)
unfolding repeated times elem_text
elem-repeated route [] s d = refl
elem-repeated route ((t, paths) ∷ seen) s d = elim (Bool-cases (text_eq t s)) [
  | inl e ↦
      let gone : times s seen ≡ 0 = not_there s seen (rw (eq_of_text_eq t s e) at d.0) in
      rw e (elim (Bool-cases (ltb 1 (length paths))) [
        | inl many ↦ rw (many, e) refl
        | inr one ↦ rw one (elem-repeated route seen s d.1 ∙ rw gone refl)
      ])
  | inr e ↦ rw e (elim (Bool-cases (ltb 1 (length paths))) [
    | inl many ↦ rw (many, e) (elem-repeated route seen s d.1)
    | inr one ↦ rw one (elem-repeated route seen s d.1)
  ])
]
  where
    not_there : (s : Text) (seen : Seen) → elem_text s (keys_of seen) ≡ false → times s seen ≡ 0
    not_there s [] h = refl
    not_there s ((t, paths) ∷ seen) h = elim (Bool-cases (text_eq t s)) [
      | inl e ↦ absurd (ground (arith, h, e))
      | inr e ↦ rw e (not_there s seen (rw e at h))
    ]

module _ (u : Unicode) where
  seen_slugs-DistinctKeys :
      (before parts : List Text) (seen : Seen)
      → DistinctKeys seen
      → DistinctKeys (seen_slugs u before parts seen)
  unfolding seen_slugs
  seen_slugs-DistinctKeys before [] seen d = d
  seen_slugs-DistinctKeys before (part ∷ parts) seen d = elim (Option-cases (slug_of u part)) [
    | inl e ↦ rw e (seen_slugs-DistinctKeys (before ++ part ∷ []) parts seen d)
    | inr (s, e) ↦ rw e (
        seen_slugs-DistinctKeys (before ++ part ∷ []) parts (add_seen s (before ++ part ∷ []) seen)
          (add_seen-DistinctKeys s (before ++ part ∷ []) seen d))
  ]

  times-seen_slugs :
      (before parts : List Text) (seen : Seen) (r : Text)
      → times r (seen_slugs u before parts seen)
        ≡ count_text r (collect_parent_slugs u parts) + times r seen
  unfolding seen_slugs collect_parent_slugs count_text
  times-seen_slugs before [] seen r = omega arith
  times-seen_slugs before (part ∷ parts) seen r = elim (Option-cases (slug_of u part)) [
    | inl e ↦
        let q : collect_parent_slugs u (part ∷ parts) ≡ collect_parent_slugs u parts =
          rw (e, collect_parent_slugs) refl in
        rw (e, q) (times-seen_slugs (before ++ part ∷ []) parts seen r)
    | inr (s, e) ↦
        let q : collect_parent_slugs u (part ∷ parts) ≡ s ∷ collect_parent_slugs u parts =
          rw (e, collect_parent_slugs) refl in
        rw (e, q)
          (omega (
            arith,
            times-seen_slugs (before ++ part ∷ []) parts (add_seen s (before ++ part ∷ []) seen) r,
            times-add_seen s (before ++ part ∷ []) seen r,
          ))
  ]

  -- Of a script page exactly those slugs are reported that name two or more segments of its route.
  pub duplicates_of_page_exact :
      (page : Page) (s : Text)
      → is_script page.suffix ≡ true
      → elem_text s (map (λ d. d.duplicated_slug) (duplicates_of_page u page))
        ≡ ltb 1 (count_text s (collect_parent_slugs u page.parts))
  unfolding duplicates_of_page times
  duplicates_of_page_exact page s script = rw script (
      elem-repeated page.parts (seen_slugs u [] page.parts []) s
        (seen_slugs-DistinctKeys [] page.parts [] tt)
      ∙ ap (ltb 1) (times-seen_slugs [] page.parts [] s ∙ omega arith))

parent_of-append : (pre : List Text) (p : Text) → parent_of (pre ++ p ∷ []) ≡ pre
unfolding parent_of
parent_of-append [] p = refl
parent_of-append (a ∷ []) p = refl
parent_of-append (a ∷ b ∷ pre) p = ap (λ l. a ∷ l) (parent_of-append (b ∷ pre) p)

-- Where the second of two segments of one name stands directly in the first, its new name is the old
-- one: the names that are avoided are those above the parent folder, and the parent's own is left out.
pub suggestion_of_nested :
    (u : Unicode) (above : List Text) (s : Text)
    → elem_text s (collect_parent_slugs u above) ≡ false
    → suggestion u s ((above ++ in_brackets s ∷ []) ++ in_brackets s ∷ []) ≡ some (in_brackets s)
unfolding suggestion normalize_dynamic_segment choose_slug
suggestion_of_nested u above s free =
    let q : choose_slug u above (name_of (above ++ in_brackets s ∷ [])) s ≡ some s =
      rw (free, choose_slug) refl in
    rw
      (
        parent_of-append (above ++ in_brackets s ∷ []) (in_brackets s),
        parent_of-append above (in_brackets s),
      )
      (rw (q, normalize_dynamic_segment) refl)
