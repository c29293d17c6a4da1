-- ===== src/Prelude/Distinct.antt =====
-- Lists of identifiers without repetition, counted by native numbers.
use Prim.Native.Nat.{ℕ, suc, ◌+◌, ◌≤◌}
use mathlib.Core.Path.{◌≡◌, refl}
use mathlib.Core.Logic.{inl, inr}
use mathlib.Core.Bool.{true, false}
use mathlib.Core.List.{List, [], ◌∷◌, ◌++◌}
use native.Mathlib.Omega.{arith}
use v10_engine.Prelude.Tests.{◌==◌, ==_refl, if◌then◌else◌, Bool-cases}
use v10_engine.Prelude.Lists.{length, elem, elem-append}

abbrev pub Distinct : List ℕ → Type 0
Distinct [] = Unit
Distinct (x ∷ xs) = (elem x xs ≡ false) × Distinct xs

abbrev pub IsSubset : List ℕ → List ℕ → Type 0
IsSubset xs ys = (a : ℕ) → elem a xs ≡ true → elem a ys ≡ true

unfoldable pub count : ℕ → List ℕ → ℕ
count a [] = 0
count a (x ∷ xs) = let rest = count a xs in if x == a then suc rest else rest

pub count_of_elem : (a : ℕ) (xs : List ℕ) → elem a xs ≡ false → count a xs ≡ 0
unfolding count
count_of_elem a [] h = refl
count_of_elem a (x ∷ xs) h = ground (arith, count_of_elem a xs)

pub elem_of_count : (a : ℕ) (xs : List ℕ) → count a xs ≡ 0 → elem a xs ≡ false
unfolding count
elem_of_count a [] h = refl
elem_of_count a (x ∷ xs) h = ground (arith, elem_of_count a xs)

pub count-append : (a : ℕ) (xs ys : List ℕ) → count a (xs ++ ys) ≡ count a xs + count a ys
unfolding count
count-append a [] ys = omega arith
count-append a (x ∷ xs) ys = ground (arith, count-append a xs ys)

remove : ℕ → List ℕ → List ℕ
remove a [] = []
remove a (x ∷ xs) = if x == a then xs else x ∷ remove a xs

length-remove : (a : ℕ) (xs : List ℕ) → elem a xs ≡ true → length xs ≡ suc (length (remove a xs))
unfolding remove
length-remove a [] h = ground arith
length-remove a (x ∷ xs) h = ground (arith, length-remove a xs)

elem-remove : (a b : ℕ) (xs : List ℕ) → (a == b) ≡ false → elem b (remove a xs) ≡ elem b xs
unfolding remove
elem-remove a b [] h = refl
elem-remove a b (x ∷ xs) h = ground (arith, elem-remove a b xs)

-- A list without repetition is no longer than a list that holds its elements.
pub length-le_of_subset : (xs ys : List ℕ) → Distinct xs → IsSubset xs ys → length xs ≤ length ys
length-le_of_subset [] ys d h = omega arith
length-le_of_subset (x ∷ xs) ys d h = omega (
  arith,
  length-remove x ys (h x (ground (arith, ==_refl x))),
  length-le_of_subset xs (remove x ys) d.1 (λ a m. elim (Bool-cases (x == a)) [
    | inl same ↦ absurd (ground (arith, d.0))
    | inr other ↦ rw (elem-remove x a ys other) (h a (ground arith))
  ]),
)

-- Where it is also as long, it holds them all.
pub subset_of_length :
    (xs ys : List ℕ) → Distinct xs → IsSubset xs ys → length xs ≡ length ys → IsSubset ys xs
subset_of_length xs ys d h e a m = elim (Bool-cases (elem a xs)) [
  | inl there ↦ there
  | inr absent ↦ absurd (
      omega (
        arith,
        length-le_of_subset (a ∷ xs) ys (absent, d)
            (λ b n. elim (Bool-cases (a == b)) [
              | inl same ↦ let s : a ≡ b = ground arith in rw (← s) m
              | inr other ↦ h b (ground arith)
            ]),
      ))
]

pub Distinct-append :
    (xs ys : List ℕ)
    → Distinct xs
    → Distinct ys
    → ((a : ℕ) → elem a xs ≡ true → elem a ys ≡ false)
    → Distinct (xs ++ ys)
Distinct-append [] ys dx dy h = dy
Distinct-append (x ∷ xs) ys dx dy h = (
  rw (elem-append x xs ys) (ground (arith, dx.0, h x, ==_refl x)),
  Distinct-append xs ys dx.1 dy (λ a m. h a (ground arith)),
)

-- How many of the second list are not in the first, each as often as it stands there.
unfoldable pub missing : List ℕ → List ℕ → ℕ
missing placed [] = 0
missing placed (d ∷ deps) = (if elem d placed then 0 else 1) + missing placed deps

pub missing-nil : (deps : List ℕ) → missing [] deps ≡ length deps
unfolding missing
missing-nil [] = refl
missing-nil (d ∷ deps) = omega (arith, missing-nil deps)

pub missing-place :
    (placed : List ℕ) (x : ℕ) (deps : List ℕ)
    → elem x placed ≡ false
    → missing placed deps ≡ missing (placed ++ x ∷ []) deps + count x deps
unfolding missing count
missing-place placed x [] h = refl
missing-place placed x (d ∷ deps) h =
    ground (arith, missing-place placed x deps h, elem-append d placed (x ∷ []))
