-- ===== src/Folders/Walk.antt =====
-- The loop of `_check_parent`: it ends, and where it passes it has met no folder that is moved.
use mathlib.Core.Path.{subst}
use cs455_project.Prelude.{
  ℕ, zero, suc, ◌≤◌, ◌<◌, ◌≡◌, ◌≢◌, refl, ap, true, false, not, Option, none, some, List, [], ◌∷◌,
  arith, inl, inr, ◌==◌, any, length, where_, row, Option-cases, Bool-cases, ok, ==-refl, eq_of_==,
}
use cs455_project.Database.{Db, Folder, folder_row}
use cs455_project.Folders.{walk, check_parent, enough_steps}

pub ==-sym : (a b : ℕ) → (a == b) ≡ (b == a)
==-sym a b = ground arith

-- The folders that the walk has not seen.
abbrev unseen : List ℕ → List Folder → List Folder
unseen seen fs = where_ (λ f. not (any (λ i. i == f.id) seen)) fs

unseen-le :
    (i : ℕ) (seen : List ℕ) (fs : List Folder)
    → length (unseen (i ∷ seen) fs) ≤ length (unseen seen fs)
unseen-le i seen [] = omega arith
unseen-le i seen (f ∷ fs) = ground (arith, unseen-le i seen fs)

unseen-lt :
    (i : ℕ) (seen : List ℕ) (fs : List Folder) (f : Folder)
    → row (λ (x : Folder). x.id) i fs ≡ some f
    → any (λ k. k == i) seen ≡ false
    → length (unseen (i ∷ seen) fs) < length (unseen seen fs)
unseen-lt i seen [] f h new = absurd (ground arith)
unseen-lt i seen (x ∷ fs) f h new = elim (Bool-cases (x.id == i)) [
  | inr other ↦ ground (arith, unseen-lt i seen fs f, other, unseen-le i seen fs)
  | inl same ↦
      let is_i : x.id ≡ i = eq_of_== _ _ same in
      ground (
        arith,
        same,
        unseen-le i seen fs,
        ap (λ k. any (λ j. j == k) seen) is_i,
        ==-refl i,
        ap (λ k. i == k) is_i,
      )
]

all_unseen : (fs : List Folder) → length (unseen [] fs) ≡ length fs
all_unseen [] = refl
all_unseen (f ∷ fs) = ground (arith, all_unseen fs)

-- With a round for each folder that it has not seen and one more, the walk ends.
walk_ends :
    (fuel : ℕ) (db : Db) (project_id : ℕ) (moving : Option ℕ) (seen : List ℕ) (current : Option ℕ)
    → length (unseen seen db.folders) < fuel
    → walk fuel db project_id moving seen current ≢ none
unfolding walk
walk_ends fuel db p moving seen none room e = absurd (ground arith)
walk_ends zero db p moving seen (some c) room e = absurd (omega arith)
walk_ends (suc fuel) db p moving seen (some c) room e = elim (Bool-cases (any (λ i. i == c) seen)) [
  | inl old ↦ absurd (ground arith)
  | inr new ↦ elim (Option-cases (folder_row db c)) [
    | inl gone ↦ absurd (ground arith)
    | inr (f, there) ↦
        let smaller = unseen-lt c seen db.folders f there new in
        walk_ends fuel db p moving (c ∷ seen) f.parent_folder_id (omega arith) (ground arith)
  ]
]

-- The loop of `_check_parent` ends for every folder, whatever loops the stored parents have.
pub check_parent_ends :
    (db : Db) (project_id parent_id : ℕ) (moving : Option ℕ)
    → check_parent db project_id parent_id moving ≢ none
unfolding check_parent
check_parent_ends db p i moving =
    walk_ends (enough_steps db) db p moving [] (some i) (omega (arith, all_unseen db.folders))

-- The folder stands `n` levels below a top one.
abbrev pub IsAt : Db → ℕ → ℕ → Type 0
IsAt db zero i = (f : Folder) × (folder_row db i ≡ some f) × (f.parent_folder_id ≡ none)
IsAt db (suc n) i =
    (f : Folder) × (folder_row db i ≡ some f)
    × ((j : ℕ) × (f.parent_folder_id ≡ some j) × IsAt db n j)

-- From every folder, the parents lead to the top level.
abbrev pub IsForest : Db → Type 0
IsForest db = (i : ℕ) (f : Folder) → folder_row db i ≡ some f → (n : ℕ) × IsAt db n i

level_unique : (db : Db) (n m i : ℕ) → IsAt db n i → IsAt db m i → n ≡ m
level_unique db zero zero i a b = refl
level_unique db zero (suc m) i (f, at, top) (g, at', (j, under, b)) = absurd (ground arith)
level_unique db (suc n) zero i (f, at, (j, under, a)) (g, at', top) = absurd (ground arith)
level_unique db (suc n) (suc m) i (f, at, (j, under, a)) (g, at', (k, under', b)) =
    let same : k ≡ j = ground arith in ap suc (level_unique db n m j a (subst (IsAt db m) same b))

-- Neither the folder nor one above it is `m`.
abbrev pub IsClear : Db → ℕ → ℕ → ℕ → Type 0
IsClear db m zero i = i == m ≡ false
IsClear db m (suc n) i =
    (i == m ≡ false)
    × ((f : Folder) (j : ℕ)
        → folder_row db i ≡ some f
        → f.parent_folder_id ≡ some j
        → IsClear db m n j)

-- What was seen stands below where the walk is.
abbrev IsBelow : Db → ℕ → List ℕ → Type 0
IsBelow db n seen = (s : ℕ) → any (λ i. i == s) seen ≡ true → (k : ℕ) × IsAt db k s × (n < k)

pub walk-IsClear :
    (fuel : ℕ) (db : Db) (p m : ℕ) (seen : List ℕ) (n c : ℕ) (u : Unit {0})
    → IsAt db n c
    → IsBelow db n seen
    → walk fuel db p (some m) seen (some c) ≡ some (ok u)
    → IsClear db m n c
unfolding walk
walk-IsClear zero db p m seen n c u at below e = absurd (ground arith)
walk-IsClear (suc fuel) db p m seen n c u at below e = elim (Bool-cases (any (λ i. i == c) seen)) [
  | inl old ↦
      let (k, at_k, deeper) = below c old in absurd (omega (arith, level_unique db n k c at at_k))
  | inr new ↦ elim (Bool-cases (c == m)) [
    | inl same ↦ absurd (ground arith)
    | inr other ↦ above n at below other new (λ n' j. walk-IsClear fuel db p m (c ∷ seen) n' j u)
  ]
]
  where
    above :
        (n : ℕ)
        → IsAt db n c
        → IsBelow db n seen
        → c == m ≡ false
        → any (λ i. i == c) seen ≡ false
        → ((n' j : ℕ)
            → IsAt db n' j
            → IsBelow db n' (c ∷ seen)
            → walk fuel db p (some m) (c ∷ seen) (some j) ≡ some (ok u)
            → IsClear db m n' j)
        → IsClear db m n c
    above zero a b other new rest = other
    above (suc n') (f, there, (j, under, a)) b other new rest = (
      other,
      λ g k at_c at_k.
          let same : j ≡ k = ground arith in
          subst (IsClear db m n') same (
            rest n' j a
              (λ s h. elim (Bool-cases (c == s)) [
                | inl is_c ↦ (
                  suc n',
                  subst (IsAt db (suc n')) (eq_of_== c s is_c) (f, there, (j, under, a)),
                  omega arith,
                )
                | inr apart ↦ let (d, at_d, deeper) = b s (ground arith) in (d, at_d, omega arith)
              ])
              (ground arith)),
    )
