-- ===== src/RouteSlug/Fresh.antt =====
-- The names that normalize_dynamic_segment (engine/workspace/route_slug.py) gives.
use v10_engine.Prelude.{
  ℕ, zero, suc, ◌<◌, ◌≤◌, ◌≡◌, refl, ap, sym, ◌∙◌, inl, inr, true, false, ◌||◌, some, List, [], ◌∷◌,
  ◌++◌, arith, length, length-append, ◌==◌, if◌then◌else◌, Bool-cases,
}
use v10_engine.Prelude.Text.{codes, text_eq, eq_of_text_eq, elem_text}
use v10_engine.Prelude.Decimal.{decimal, decimal_injective, decimal-ne-nil}
use v10_engine.Store.{Text}
use v10_engine.RouteSlug.{
  Unicode, collect_parent_slugs, to_camel_case, search_candidate, choose_slug, in_brackets,
  normalize_dynamic_segment,
}

-- The n-th name that is tried: the base, then the base with 2, 3, ….
abbrev candidate : Text → ℕ → Text
candidate base n = if n == 1 then base else base ++ decimal n

append_left : (s t t' : Text) → s ++ t ≡ s ++ t' → t ≡ t'
append_left [] t t' h = h
append_left (c ∷ s) t t' h = append_left s t t' (cc)

candidates_differ :
    (base : Text) (m n : ℕ) → 0 < m → m < n → candidate base m ≡ candidate base n → ⊥
candidates_differ base m n p h e = elim (Bool-cases (m == 1)) [
  | inl one ↦
      let big : (n == 1) ≡ false = ground arith in
      let e' : base ≡ base ++ decimal n = rw (one, big) at e in
      omega (arith, ap length e', length-append base (decimal n), decimal-ne-nil n)
  | inr more ↦
      let big : (n == 1) ≡ false = ground arith in
      let e' : base ++ decimal m ≡ base ++ decimal n = rw (more, big) at e in
      omega (arith, decimal_injective m n (append_left base (decimal m) (decimal n) e'))
]

remove : Text → List Text → List Text
remove s [] = []
remove s (t ∷ texts) = if text_eq t s then texts else t ∷ remove s texts

length-remove :
    (s : Text) (texts : List Text)
    → elem_text s texts ≡ true
    → suc (length (remove s texts)) ≡ length texts
unfolding remove elem_text
length-remove s [] h = cc
length-remove s (t ∷ texts) h = elim (Bool-cases (text_eq t s)) [
  | inl e ↦ rw e refl
  | inr e ↦ rw e (ap suc (length-remove s texts (rw e at h)))
]

elem-remove :
    (s r : Text) (texts : List Text)
    → (s ≡ r → ⊥)
    → elem_text r (remove s texts) ≡ elem_text r texts
unfolding remove elem_text
elem-remove s r [] other = refl
elem-remove s r (t ∷ texts) other = elim (Bool-cases (text_eq t s)) [
  | inl e ↦ rw e (elim (Bool-cases (text_eq t r)) [
    | inl q ↦ absurd (other (sym (eq_of_text_eq t s e) ∙ eq_of_text_eq t r q))
    | inr q ↦ rw q refl
  ])
  | inr e ↦ rw e (ap (λ b. text_eq t r || b) (elem-remove s r texts other))
]

module _ (base : Text) (existing : List Text) where
  -- `left` are the slugs that the names not yet tried may meet.
  search_candidate_ends :
      (fuel k : ℕ) (left : List Text)
      → 0 < k
      → length left < fuel
      → ((m : ℕ)
          → k ≤ m
          → elem_text (candidate base m) existing ≡ elem_text (candidate base m) left)
      → (s : Text) × (search_candidate fuel base existing (candidate base k) (suc k) ≡ some s)
        × (elem_text s existing ≡ false)
  unfolding search_candidate
  search_candidate_ends zero k left p h same = absurd (omega arith)
  search_candidate_ends (suc fuel) k left p h same =
      elim (Bool-cases (elem_text (candidate base k) existing)) [
        | inr free ↦ (candidate base k, rw free refl, free)
        | inl taken ↦
            let met : elem_text (candidate base k) left ≡ true =
              sym (same k (omega arith)) ∙ taken in
            let next : candidate base (suc k) ≡ base ++ decimal (suc k) =
              let q : (suc k == 1) ≡ false = ground arith in rw q refl in
            let (s, found, free) =
              search_candidate_ends fuel (suc k) (remove (candidate base k) left) (omega arith)
                (omega (arith, length-remove (candidate base k) left met))
                (λ m lt.
                  same m (omega arith)
                  ∙ sym (
                      elem-remove (candidate base k) (candidate base m) left
                        (candidates_differ base k m p (omega arith)))) in
            (
              s,
              rw taken (
                  ap (λ c. search_candidate fuel base existing c (suc (suc k))) (sym next) ∙ found),
              free,
            )
      ]

choose_slug_fresh :
    (u : Unicode) (parent : List Text) (resource default : Text)
    → (s : Text) × (choose_slug u parent resource default ≡ some s)
      × (elem_text s (collect_parent_slugs u parent) ≡ false)
unfolding choose_slug
choose_slug_fresh u parent resource default =
    let existing = collect_parent_slugs u parent in
    let base = to_camel_case u resource ++ codes "Id" in
    elim (Bool-cases (elem_text default existing)) [
      | inr free ↦ (default, rw free refl, free)
      | inl taken ↦
          let (s, found, free) =
            search_candidate_ends base existing (suc (length existing)) 1 existing (omega arith)
              (omega arith) (λ m lt. refl) in
          (s, rw taken found, free)
    ]

-- The search for a name ends within the rounds that it has, and the name is in brackets and is none of
-- the dynamic segments above.
pub normalize_dynamic_segment_fresh :
    (u : Unicode) (parent : List Text) (resource default : Text)
    → (s : Text) × (normalize_dynamic_segment u parent resource default ≡ some (in_brackets s))
      × (elem_text s (collect_parent_slugs u parent) ≡ false)
unfolding normalize_dynamic_segment
normalize_dynamic_segment_fresh u parent resource default =
    let (s, found, free) = choose_slug_fresh u parent resource default in
    (s, rw (found, normalize_dynamic_segment) refl, free)
