-- ===== src/Prelude/Dicts.antt =====
-- A Python dict with numbers as keys: its items in the order of insertion.
use Prim.Native.Nat.{ℕ}
use mathlib.Core.Path.{◌≡◌, refl}
use mathlib.Core.Option.{Option, none, some}
use mathlib.Core.List.{List, [], ◌∷◌}
use native.Mathlib.Omega.{arith}
use cs455_project.Prelude.Tests.{◌==◌, if◌then◌else◌}

module _ {ℓ} {V : Type ℓ} where
  -- `items.get(k)`
  abbrev pub lookup : ℕ → List (ℕ × V) → Option V
  lookup k [] = none
  lookup k ((j, v) ∷ items) = if j == k then some v else lookup k items

  -- `items[k] = v`
  abbrev pub store : ℕ → V → List (ℕ × V) → List (ℕ × V)
  store k v [] = (k, v) ∷ []
  store k v ((j, u) ∷ items) =
      let rest = store k v items in if j == k then (j, v) ∷ items else (j, u) ∷ rest

  -- `items.pop(k, None)`
  abbrev pub discard : ℕ → List (ℕ × V) → List (ℕ × V)
  discard k [] = []
  discard k ((j, u) ∷ items) = let rest = discard k items in if j == k then items else (j, u) ∷ rest

  pub lookup-store :
      (i k : ℕ) (v : V) (items : List (ℕ × V))
      → lookup i (store k v items) ≡ (if k == i then some v else lookup i items)
  lookup-store i k v [] = refl
  lookup-store i k v ((j, u) ∷ items) = ground (arith, lookup-store i k v items)
