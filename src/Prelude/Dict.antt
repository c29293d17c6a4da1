-- ===== src/Prelude/Dict.antt =====
-- A Python `dict` keyed by identifiers. Iteration follows the order of insertion, and a write to a
-- key that is there keeps its place.
use Prim.Native.Nat.{ℕ}
use mathlib.Core.Path.{◌≡◌, refl, ◌∙◌}
use mathlib.Core.Logic.{inl, inr}
use mathlib.Core.Bool.{◌||◌}
use mathlib.Core.Option.{Option, none, some}
use mathlib.Core.List.{List, [], ◌∷◌}
use native.Mathlib.Omega.{arith}
use v10_engine.Prelude.Tests.{◌==◌, if◌then◌else◌, Bool-cases}
use v10_engine.Prelude.Lists.{elem}
use v10_engine.Prelude.Distinct.{Distinct}

abbrev pub Dict {ℓ} : Type ℓ → Type ℓ
Dict V = List (ℕ × V)

module _ {ℓ} {V : Type ℓ} where
  -- d.get(k)
  unfoldable pub get : ℕ → Dict V → Option V
  get k [] = none
  get k ((j, v) ∷ d) = if j == k then some v else get k d

  -- d.get(k, v)
  unfoldable pub get_or : ℕ → V → Dict V → V
  get_or k v [] = v
  get_or k v ((j, w) ∷ d) = if j == k then w else get_or k v d

  -- d[k] = v
  unfoldable pub put : ℕ → V → Dict V → Dict V
  put k v [] = (k, v) ∷ []
  put k v ((j, w) ∷ d) = if j == k then (j, v) ∷ d else (j, w) ∷ put k v d

  pub get_or-put :
      (k j : ℕ) (v u : V) (d : Dict V)
      → get_or j u (put k v d) ≡ (if k == j then v else get_or j u d)
  unfolding get_or put
  get_or-put k j v u [] = refl
  get_or-put k j v u ((i, w) ∷ d) = ground (arith, get_or-put k j v u d)

  pub get-put :
      (k j : ℕ) (v : V) (d : Dict V) → get j (put k v d) ≡ (if k == j then some v else get j d)
  unfolding get put
  get-put k j v [] = refl
  get-put k j v ((i, w) ∷ d) = ground (arith, get-put k j v d)

module _ {ℓ} {V : Type ℓ} where
  unfoldable pub keys : Dict V → List ℕ
  keys [] = []
  keys ((k, v) ∷ d) = k ∷ keys d

  pub elem-keys-put :
      (k j : ℕ) (v : V) (d : Dict V) → elem j (keys (put k v d)) ≡ (k == j || elem j (keys d))
  unfolding keys put
  elem-keys-put k j v [] = refl
  elem-keys-put k j v ((i, w) ∷ d) = ground (arith, elem-keys-put k j v d)

  pub keys-put-Distinct :
      (k : ℕ) (v : V) (d : Dict V) → Distinct (keys d) → Distinct (keys (put k v d))
  unfolding keys put
  keys-put-Distinct k v [] h = (refl, tt)
  keys-put-Distinct k v ((i, w) ∷ d) h = elim (Bool-cases (i == k)) [
    | inl same ↦ rw same h
    | inr other ↦
        rw other (elem-keys-put k i v d ∙ ground (arith, h.0), keys-put-Distinct k v d h.1)
  ]
