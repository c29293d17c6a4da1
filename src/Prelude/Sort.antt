-- ===== src/Prelude/Sort.antt =====
-- Python's `sorted(xs, key=key)`, which is stable.
use Prim.Native.Nat.{ℕ}
use mathlib.Core.List.{List, [], ◌∷◌}
use v10_engine.Prelude.Tests.{ltb, if◌then◌else◌}

module _ {ℓ} {A : Type ℓ} where
  unfoldable pub insert_by : (A → ℕ) → A → List A → List A
  insert_by key x [] = x ∷ []
  insert_by key x (y ∷ ys) = if ltb (key y) (key x) then y ∷ insert_by key x ys else x ∷ y ∷ ys

  unfoldable pub sorted : (A → ℕ) → List A → List A
  unfolding insert_by
  sorted key [] = []
  sorted key (x ∷ xs) = insert_by key x (sorted key xs)
