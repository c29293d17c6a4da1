-- ===== src/Prelude/Decimal.antt =====
-- The decimal digits of a number, as `str(n)` writes them.
use Prim.Native.Nat.{ℕ, zero, suc, ◌+◌, ◌-◌, ◌*◌, ◌/◌, ◌%◌, ◌≤◌, ◌<◌}
use mathlib.Core.Path.{◌≡◌, refl, sym, ap, ◌∙◌}
use mathlib.Core.Bool.{Bool, true, ◌&&◌}
use mathlib.Core.Logic.{inl, inr}
use mathlib.Core.List.{List, [], ◌∷◌, ◌++◌}
use native.Mathlib.Omega.{arith}
use v10_engine.Prelude.Tests.{ltb, leb, if◌then◌else◌, Bool-cases}
use v10_engine.Prelude.Lists.{all, length, length-append}

-- The number falls with each digit, so as many rounds as the number itself are enough.
unfoldable pub digits : ℕ → ℕ → List ℕ
digits zero n = (48 + n % 10) ∷ []
digits (suc fuel) n =
    let front = digits fuel (n / 10) in
    let last = (48 + n % 10) ∷ [] in if ltb n 10 then last else front ++ last

unfoldable pub decimal : ℕ → List ℕ
unfolding digits
decimal n = digits n n

-- The number that digits stand for.
number_from : ℕ → List ℕ → ℕ
number_from acc [] = acc
number_from acc (c ∷ s) = number_from (acc * 10 + (c - 48)) s

number_from-append :
    (acc : ℕ) (s t : List ℕ) → number_from acc (s ++ t) ≡ number_from (number_from acc s) t
unfolding number_from
number_from-append acc [] t = refl
number_from-append acc (c ∷ s) t = number_from-append (acc * 10 + (c - 48)) s t

number-digits : (fuel n : ℕ) → n ≤ fuel → number_from 0 (digits fuel n) ≡ n
unfolding digits number_from
number-digits zero n h = omega arith
number-digits (suc fuel) n h = elim (Bool-cases (ltb n 10)) [
  | inl small ↦ rw small (ground arith)
  | inr large ↦
      rw
        (
          large,
          number_from-append 0 (digits fuel (n / 10)) ((48 + n % 10) ∷ []),
          number-digits fuel (n / 10) (ground arith),
        )
        (omega arith)
]

-- Two numbers with the same digits are the same number.
pub decimal_injective : (m n : ℕ) → decimal m ≡ decimal n → m ≡ n
unfolding decimal
decimal_injective m n h =
    sym (number-digits m m (omega arith)) ∙ ap (number_from 0) h ∙ number-digits n n (omega arith)

abbrev pub is_digit : ℕ → Bool
is_digit c = leb 48 c && leb c 57

pub all-append :
    (p : ℕ → Bool) (s t : List ℕ) → all p s ≡ true → all p t ≡ true → all p (s ++ t) ≡ true
all-append p [] t h k = k
all-append p (c ∷ s) t h k = ground (arith, h, all-append p s t (ground (arith, h)) k)

all-digits : (fuel n : ℕ) → all is_digit (digits fuel n) ≡ true
unfolding digits
all-digits zero n = ground arith
all-digits (suc fuel) n = elim (Bool-cases (ltb n 10)) [
  | inl small ↦ rw small (ground arith)
  | inr large ↦
      rw large
        (all-append is_digit (digits fuel (n / 10)) _ (all-digits fuel (n / 10)) (ground arith))
]

pub all-decimal : (n : ℕ) → all is_digit (decimal n) ≡ true
unfolding decimal
all-decimal n = all-digits n n

digits-ne-nil : (fuel n : ℕ) → 0 < length (digits fuel n)
unfolding digits
digits-ne-nil zero n = omega arith
digits-ne-nil (suc fuel) n = elim (Bool-cases (ltb n 10)) [
  | inl small ↦ rw small (omega arith)
  | inr large ↦ rw (large, length-append (digits fuel (n / 10)) ((48 + n % 10) ∷ [])) (omega arith)
]

pub decimal-ne-nil : (n : ℕ) → 0 < length (decimal n)
unfolding decimal
decimal-ne-nil n = digits-ne-nil n n
