-- ===== src/Changes/Totals.antt =====
-- `split_stats` keeps the totals.
use native.Mathlib.Nat.{div-add-mod, mod-lt, le_of_mul-le-mul_left, lt_of_mul-lt-mul_left, mul_comm}
use mathlib.Core.Path.{subst}
use cs455_project.Prelude.{
  take-All, length-take, drop, ℕ, suc, ◌+◌, ◌-◌, ◌*◌, ◌/◌, ◌≤◌, ◌<◌, true, List, [], ◌∷◌, ◌==◌,
  take, map, length, ◌≡◌, refl, sym, ap, ◌∙◌, All, any, ==-refl, All-mono, sum_of, arith,
}
use cs455_project.Changes.{
  Weights, total_of, whole_of, floors, fractions, insert_fraction, largest_first, bump, bump_each,
  largest_remainder, zip_shares, split_stats,
}

division :
    (total whole : ℕ) (ws : Weights)
    → whole * total_of (floors total whole ws) + total_of (fractions total whole ws)
      ≡ total * total_of ws
division total whole [] = omega arith
division total whole ((uid, w) ∷ ws) =
    omega (arith, division total whole ws, div-add-mod (total * w) whole)

fractions_small :
    (total whole : ℕ) (ws : Weights)
    → 0 < whole
    → total_of (fractions total whole ws) + length ws ≤ whole * length ws
fractions_small total whole [] h = omega arith
fractions_small total whole ((uid, w) ∷ ws) h =
    omega (arith, fractions_small total whole ws h, mod-lt (total * w) h)

-- What is left over after rounding down is less than one for each author.
leftover_small :
    (total whole : ℕ) (w : ℕ × ℕ) (ws : Weights)
    → total_of (w ∷ ws) ≡ whole
    → 0 < whole
    → (total_of (floors total whole (w ∷ ws)) ≤ total)
      × (total < total_of (floors total whole (w ∷ ws)) + length (w ∷ ws))
leftover_small total whole w ws e pos =
    let F = total_of (floors total whole (w ∷ ws)) in
    let n = length (w ∷ ws) in
    let divided : whole * F + total_of (fractions total whole (w ∷ ws)) ≡ whole * total =
      subst (λ t. whole * F + total_of (fractions total whole (w ∷ ws)) ≡ t) (mul_comm total whole)
        (subst (λ t. whole * F + total_of (fractions total whole (w ∷ ws)) ≡ total * t) e
          (division total whole (w ∷ ws))) in
    let below : whole * F ≤ whole * total = omega (arith, divided) in
    let above : whole * total < whole * (F + n) =
      omega (arith, divided, fractions_small total whole (w ∷ ws) pos) in
    (le_of_mul-le-mul_left below pos, lt_of_mul-lt-mul_left whole above)

length-insert_fraction :
    (f : ℕ × ℕ) (fs : Weights) → length (insert_fraction f fs) ≡ suc (length fs)
length-insert_fraction f [] = refl
length-insert_fraction f (g ∷ rest) = ground (arith, length-insert_fraction f rest)

length-largest_first : (fs : Weights) → length (largest_first fs) ≡ length fs
length-largest_first [] = refl
length-largest_first (f ∷ rest) =
    omega (arith, length-insert_fraction f (largest_first rest), length-largest_first rest)

-- `shares` has the author's key.
abbrev HasKey : Weights → ℕ × ℕ → Type 0
HasKey shares f = any (λ (s : ℕ × ℕ). s.0 == f.0) shares ≡ true

any-bump :
    (uid k : ℕ) (shares : Weights)
    → any (λ (s : ℕ × ℕ). s.0 == k) (bump uid shares) ≡ any (λ (s : ℕ × ℕ). s.0 == k) shares
any-bump uid k [] = refl
any-bump uid k ((j, v) ∷ rest) = ground (arith, any-bump uid k rest)

total-bump :
    (uid w : ℕ) (shares : Weights)
    → HasKey shares (uid, w)
    → total_of (bump uid shares) ≡ suc (total_of shares)
total-bump uid w [] h = ground arith
total-bump uid w ((j, v) ∷ rest) h = ground (arith, total-bump uid w rest)

total-bump_each :
    (fs shares : Weights)
    → All (HasKey shares) fs
    → total_of (bump_each fs shares) ≡ total_of shares + length fs
total-bump_each [] shares h = omega arith
total-bump_each (f ∷ fs) shares (first, later) = omega (
  arith,
  total-bump f.0 f.1 shares first,
  total-bump_each fs (bump f.0 shares) (
      All-mono (HasKey shares) (HasKey (bump f.0 shares)) fs (λ g h. any-bump f.0 g.0 shares ∙ h)
        later),
)

insert_fraction-All :
    (P : ℕ × ℕ → Type 0) (f : ℕ × ℕ) (fs : Weights) → P f → All P fs → All P (insert_fraction f fs)
insert_fraction-All P f [] h hs = (h, tt)
insert_fraction-All P f (g ∷ rest) h (first, later) =
    ground (arith, insert_fraction-All P f rest h later)

largest_first-All : (P : ℕ × ℕ → Type 0) (fs : Weights) → All P fs → All P (largest_first fs)
largest_first-All P [] h = tt
largest_first-All P (f ∷ fs) (first, later) =
    insert_fraction-All P f (largest_first fs) first (largest_first-All P fs later)

fractions-HasKey :
    (total whole : ℕ) (ws : Weights)
    → All (HasKey (floors total whole ws)) (fractions total whole ws)
fractions-HasKey total whole [] = tt
fractions-HasKey total whole ((uid, w) ∷ ws) =
    let shares = floors total whole ws in
    let before : ℕ × ℕ = (uid, total * w / whole) in
    (
      ground (arith, ==-refl uid),
      All-mono (HasKey shares) (HasKey (before ∷ shares)) (fractions total whole ws)
          (λ g h. ground arith) (fractions-HasKey total whole ws),
    )

length-fractions : (total whole : ℕ) (ws : Weights) → length (fractions total whole ws) ≡ length ws
length-fractions total whole [] = refl
length-fractions total whole (w ∷ ws) = ap suc (length-fractions total whole ws)

shared :
    (total whole : ℕ) (w : ℕ × ℕ) (ws : Weights)
    → total_of (w ∷ ws) ≡ whole
    → 0 < whole
    → total_of (
        bump_each
          (take
            (total - total_of (floors total whole (w ∷ ws)))
            (largest_first (fractions total whole (w ∷ ws))))
          (floors total whole (w ∷ ws)))
      ≡ total
shared total whole w ws e pos =
    let shares = floors total whole (w ∷ ws) in
    let fs = fractions total whole (w ∷ ws) in
    let leftover = total - total_of shares in
    let (low, high) = leftover_small total whole w ws e pos in
    let long : length (largest_first fs) ≡ length (w ∷ ws) =
      length-largest_first fs ∙ length-fractions total whole (w ∷ ws) in
    omega (
      arith,
      low,
      total-bump_each (take leftover (largest_first fs)) shares (
          take-All (HasKey shares) leftover (largest_first fs)
            (largest_first-All (HasKey shares) fs (fractions-HasKey total whole (w ∷ ws)))),
      length-take leftover (largest_first fs) (omega (arith, high, long)),
    )

total-largest_remainder :
    (total : ℕ) (w : ℕ × ℕ) (ws : Weights)
    → 0 < total_of (w ∷ ws)
    → total_of (largest_remainder (w ∷ ws) total) ≡ total
unfolding largest_remainder
total-largest_remainder total w ws pos =
    let whole : whole_of (w ∷ ws) ≡ total_of (w ∷ ws) = ground arith in
    shared total (whole_of (w ∷ ws)) w ws (sym whole) (omega (arith, whole))

abbrev pub keys {ℓ} : {V : Type ℓ} → List (ℕ × V) → List ℕ
keys items = map (λ i. i.0) items

keys-bump : (uid : ℕ) (shares : Weights) → keys (bump uid shares) ≡ keys shares
keys-bump uid [] = refl
keys-bump uid ((j, v) ∷ rest) = ground (arith, keys-bump uid rest)

keys-bump_each : (fs shares : Weights) → keys (bump_each fs shares) ≡ keys shares
keys-bump_each [] shares = refl
keys-bump_each (f ∷ fs) shares = keys-bump_each fs (bump f.0 shares) ∙ keys-bump f.0 shares

keys-floors : (total whole : ℕ) (ws : Weights) → keys (floors total whole ws) ≡ keys ws
keys-floors total whole [] = refl
keys-floors total whole (w ∷ ws) = ap (λ ks. w.0 ∷ ks) (keys-floors total whole ws)

keys-largest_remainder : (total : ℕ) (ws : Weights) → keys (largest_remainder ws total) ≡ keys ws
unfolding largest_remainder
keys-largest_remainder total ws =
    let shares = floors total (whole_of ws) ws in
    keys-bump_each
      (take (total - total_of shares) (largest_first (fractions total (whole_of ws) ws))) shares
    ∙ keys-floors total (whole_of ws) ws

abbrev pub added_of : List (ℕ × (ℕ × ℕ)) → ℕ
added_of shares = sum_of (λ (s : ℕ × (ℕ × ℕ)). s.1.0) shares

abbrev pub removed_of : List (ℕ × (ℕ × ℕ)) → ℕ
removed_of shares = sum_of (λ (s : ℕ × (ℕ × ℕ)). s.1.1) shares

-- The authors are those of the weights, in their order, and the lines add up.
abbrev pub IsSplit : Weights → (added removed : ℕ) → List (ℕ × (ℕ × ℕ)) → Type 0
IsSplit weights added removed shares =
    (keys shares ≡ keys weights) × (added_of shares ≡ added) × (removed_of shares ≡ removed)

zipped :
    (xs ys : Weights)
    → keys xs ≡ keys ys
    → IsSplit xs (total_of xs) (total_of ys) (zip_shares xs ys)
zipped [] [] h = (refl, refl, refl)
zipped [] (r ∷ ys) h = ground arith
zipped (a ∷ xs) [] h = ground arith
zipped (a ∷ xs) (r ∷ ys) h =
    let (same, added, removed) = zipped xs ys (ap (λ ks. drop 1 ks) h) in
    (ap (λ ks. a.0 ∷ ks) same, omega (arith, added), omega (arith, removed))

-- If the authors typed something, `split_stats` credits each of them once, and the credited lines add
-- up to the lines that were added and to those that were removed.
pub split_stats-IsSplit :
    (weights : Weights) (added removed : ℕ)
    → 0 < total_of weights
    → IsSplit weights added removed (split_stats weights added removed)
unfolding split_stats
split_stats-IsSplit [] added removed pos = ground (arith, pos)
split_stats-IsSplit ((uid, w) ∷ []) added removed pos = (refl, omega arith, omega arith)
split_stats-IsSplit (v ∷ w ∷ ws) added removed pos =
    let xs = largest_remainder (v ∷ w ∷ ws) added in
    let ys = largest_remainder (v ∷ w ∷ ws) removed in
    let (same, a, r) = zipped xs ys (
      keys-largest_remainder added (v ∷ w ∷ ws)
      ∙ sym (keys-largest_remainder removed (v ∷ w ∷ ws))) in
    (
      same ∙ keys-largest_remainder added (v ∷ w ∷ ws),
      a ∙ total-largest_remainder added v (w ∷ ws) pos,
      r ∙ total-largest_remainder removed v (w ∷ ws) pos,
    )
