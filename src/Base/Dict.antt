-- ===== src/Base/Dict.antt =====
-- A Python `dict` with numbers for keys, as the list of its items.
use Prim.Native.Nat.{ℕ}
use mathlib.Core.Path.{◌≡◌, refl}
use mathlib.Core.List.{List, [], ◌∷◌}
use mathlib.Core.Option.{Option, none, some}
use native.Mathlib.Omega.{arith}
use edu_glasses_host.Base.Tests.{◌==◌, if◌then◌else◌}

module _ {ℓ} {A : Type ℓ} where
  -- `items.get(key)`
  unfoldable pub lookup : ℕ → List (ℕ × A) → Option A
  lookup key [] = none
  lookup key ((k, a) ∷ items) = if k == key then some a else lookup key items

  -- `items[key] = value`
  unfoldable pub insert : ℕ → A → List (ℕ × A) → List (ℕ × A)
  insert key value [] = (key, value) ∷ []
  insert key value ((k, a) ∷ items) =
      let rest = insert key value items in if k == key then (key, value) ∷ items else (k, a) ∷ rest

  -- `items.pop(key, None)`
  unfoldable pub remove : ℕ → List (ℕ × A) → List (ℕ × A)
  remove key [] = []
  remove key ((k, a) ∷ items) =
      let rest = remove key items in if k == key then rest else (k, a) ∷ rest

module _ {ℓ} {A : Type ℓ} where
  pub lookup-insert :
      (key other : ℕ) (value : A) (items : List (ℕ × A))
      → lookup other (insert key value items)
        ≡ (if key == other then some value else lookup other items)
  unfolding lookup insert
  lookup-insert key other value [] = refl
  lookup-insert key other value ((k, a) ∷ items) =
      ground (arith, lookup-insert key other value items)

  pub lookup-remove :
      (key other : ℕ) (items : List (ℕ × A))
      → lookup other (remove key items) ≡ (if key == other then none else lookup other items)
  unfolding lookup remove
  lookup-remove key other [] = ground arith
  lookup-remove key other ((k, a) ∷ items) = ground (arith, lookup-remove key other items)
