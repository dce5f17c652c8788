-- ===== src/Prelude/Tables.antt =====
-- A table of the database as the list of its rows, found by a key.
use Prim.Native.Nat.{ℕ}
use mathlib.Core.Path.{◌≡◌, refl}
use mathlib.Core.Option
use mathlib.Core.Option.{Option, none, some}
use mathlib.Core.List.{List, [], ◌∷◌, ◌++◌}
use native.Mathlib.Omega.{arith}
use cs455_project.Prelude.Tests.{◌==◌, if◌then◌else◌}

module _ {ℓ} {A : Type ℓ} (key : A → ℕ) where
  -- `db.get(Table, i)`
  abbrev pub row : ℕ → List A → Option A
  row i [] = none
  row i (r ∷ rs) = if key r == i then some r else row i rs

  -- `update(Table).where(Table.id == i)`
  abbrev pub modify : ℕ → (A → A) → List A → List A
  modify i f [] = []
  modify i f (r ∷ rs) = (if key r == i then f r else r) ∷ modify i f rs

  pub row-modify :
      (i j : ℕ) (f : A → A) (rs : List A)
      → ((r : A) → key (f r) ≡ key r)
      → row j (modify i f rs) ≡ (if i == j then Option.map f (row j rs) else row j rs)
  row-modify i j f [] keeps = ground arith
  row-modify i j f (r ∷ rs) keeps = ground (arith, keeps r, row-modify i j f rs keeps)

  pub row-append :
      (j : ℕ) (rs : List A) (r : A)
      → row j (rs ++ r ∷ [])
        ≡ elim (row j rs) [ some x ↦ some x | none ↦ if key r == j then some r else none ]
  row-append j [] r = refl
  row-append j (x ∷ rs) r = ground (arith, row-append j rs r)

  pub key-row : (j : ℕ) (rs : List A) (r : A) → row j rs ≡ some r → key r ≡ j
  key-row j [] r h = ground arith
  key-row j (x ∷ rs) r h = ground (arith, key-row j rs r)
