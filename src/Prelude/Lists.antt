-- ===== src/Prelude/Lists.antt =====
-- Lists measured by native numbers, filtered by Boolean tests, and predicates by recursion.
use Prim.Native.Nat.{ℕ, zero, suc, ◌+◌, ◌≤◌, ◌<◌}
use mathlib.Core.Path.{◌≡◌, refl}
use mathlib.Core.Logic.{◌⊎◌, inl, inr}
use mathlib.Core.Bool.{Bool, false, ◌||◌}
use mathlib.Core.List.{List, [], ◌∷◌, ◌++◌, foldr}
use native.Mathlib.Omega.{arith}
use cs455_project.Prelude.Tests.{ltb, ◌==◌, if◌then◌else◌}

module _ {ℓ} {A : Type ℓ} where
  abbrev pub length : List A → ℕ
  length [] = 0
  length (x ∷ xs) = suc (length xs)

  abbrev pub take : ℕ → List A → List A
  take zero xs = []
  take (suc n) [] = []
  take (suc n) (x ∷ xs) = x ∷ take n xs

  abbrev pub drop : ℕ → List A → List A
  drop zero xs = xs
  drop (suc n) [] = []
  drop (suc n) (x ∷ xs) = drop n xs

  pub List-cases : (xs : List A) → (xs ≡ []) ⊎ ((x : A) × (rest : List A) × (xs ≡ x ∷ rest))
  List-cases [] = inl refl
  List-cases (x ∷ rest) = inr (x, rest, refl)

  -- The rows that pass a test, in their order.
  abbrev pub where_ : (A → Bool) → List A → List A
  where_ p [] = []
  where_ p (x ∷ xs) = let rest = where_ p xs in if p x then x ∷ rest else rest

  abbrev pub any : (A → Bool) → List A → Bool
  any p [] = false
  any p (x ∷ xs) = p x || any p xs

  abbrev pub sum_of : (A → ℕ) → List A → ℕ
  sum_of f [] = 0
  sum_of f (x ∷ xs) = f x + sum_of f xs

  pub length-append : (xs ys : List A) → length (xs ++ ys) ≡ length xs + length ys
  length-append [] ys = omega arith
  length-append (x ∷ xs) ys = omega (arith, length-append xs ys)

  abbrev pub All {κ} : (A → Type κ) → List A → Type κ
  All P [] = Unit
  All P (x ∷ xs) = P x × All P xs

  pub All-append {κ} : (P : A → Type κ) (xs ys : List A) → All P xs → All P ys → All P (xs ++ ys)
  All-append P [] zs front back = back
  All-append P (y ∷ rest) zs (first, others) back = (first, All-append P rest zs others back)

  pub All-mono {κ μ} :
      (P : A → Type κ) (Q : A → Type μ) (xs : List A) → ((x : A) → P x → Q x) → All P xs → All Q xs
  All-mono P Q [] f h = tt
  All-mono P Q (x ∷ xs) f (first, others) = (f x first, All-mono P Q xs f others)

  pub take-All {κ} : (P : A → Type κ) (n : ℕ) (xs : List A) → All P xs → All P (take n xs)
  take-All P zero xs h = tt
  take-All P (suc n) [] h = tt
  take-All P (suc n) (x ∷ xs) (first, others) = (first, take-All P n xs others)

  pub length-take : (n : ℕ) (xs : List A) → n ≤ length xs → length (take n xs) ≡ n
  length-take zero xs h = refl
  length-take (suc n) [] h = omega arith
  length-take (suc n) (x ∷ xs) h = omega (arith, length-take n xs (omega arith))

  pub any-append : (p : A → Bool) (xs ys : List A) → any p (xs ++ ys) ≡ (any p xs || any p ys)
  any-append p [] ys = refl
  any-append p (x ∷ xs) ys = ground (arith, any-append p xs ys)

module _ {A : Type 0} where
  -- `x` is one of the list.
  abbrev pub Among : A → List A → Type 0
  Among x [] = ⊥
  Among x (y ∷ ys) = (x ≡ y) ⊎ Among x ys

  pub All-Among {κ} : (P : A → Type κ) (x : A) (xs : List A) → All P xs → Among x xs → P x
  All-Among P x [] h m = absurd m
  All-Among P x (y ∷ ys) h (inl e) = rw e h.0
  All-Among P x (y ∷ ys) h (inr m) = All-Among P x ys h.1 m

-- A set of numbers as an ascending list, which is `sorted(...)` of the set.
abbrev pub add_id : ℕ → List ℕ → List ℕ
add_id i [] = i ∷ []
add_id i (j ∷ rest) =
    let later = add_id i rest in
    if ltb i j then i ∷ j ∷ rest else if i == j then j ∷ rest else j ∷ later

pub any-add_id :
    (i j : ℕ) (ids : List ℕ) → any (λ k. k == j) (add_id i ids) ≡ (i == j || any (λ k. k == j) ids)
any-add_id i j [] = refl
any-add_id i j (k ∷ rest) = ground (arith, any-add_id i j rest)

pub any-sorted :
    (j : ℕ) (ids : List ℕ) → any (λ k. k == j) (foldr add_id [] ids) ≡ any (λ k. k == j) ids
any-sorted j [] = refl
any-sorted j (i ∷ rest) = ground (arith, any-add_id i j (foldr add_id [] rest), any-sorted j rest)

-- Each number is above the bound and the next one above it.
abbrev pub IsAbove : ℕ → List ℕ → Type 0
IsAbove low [] = Unit
IsAbove low (i ∷ rest) = (low < i) × IsAbove i rest

add_id-IsAbove : (low i : ℕ) (ids : List ℕ) → low < i → IsAbove low ids → IsAbove low (add_id i ids)
add_id-IsAbove low i [] new h = (new, tt)
add_id-IsAbove low i (j ∷ rest) new (first, later) = ground (arith, add_id-IsAbove j i rest)

pub sorted-IsAbove :
    (low : ℕ) (ids : List ℕ) → All (λ i. low < i) ids → IsAbove low (foldr add_id [] ids)
sorted-IsAbove low [] h = tt
sorted-IsAbove low (i ∷ rest) (first, later) =
    add_id-IsAbove low i (foldr add_id [] rest) first (sorted-IsAbove low rest later)
