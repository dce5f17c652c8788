-- ===== src/Queue/Select.antt =====
-- The run that a worker selects.
use mathlib.Core.Option.{some-injective}
use mathlib.Core.Path.{subst}
use mathlib.Core.Bool.{false≢true}
use native.Mathlib.Decide.{dec_lt}
use cs455_project.Prelude.{
  sym, ap, ◌∙◌, ℕ, ◌-◌, ◌≤◌, ◌<◌, ◌≡◌, refl, ◌⊎◌, inl, inr, true, false, some, List, [], ◌∷◌, arith,
  All, Among, All-Among, Bool-cases,
}
use cs455_project.Queue.{
  Payload, Settings, Score, exceeds, score_of, better_of, select_from, select_highest_priority,
}
use cs455_project.Queue.Ageing.{Outweighs, aged_outscores}

exceeds_trans : (a b c : Score) → exceeds a b ≡ false → exceeds b c ≡ false → exceeds a c ≡ false
exceeds_trans a b c h k = ground arith

exceeds_irrefl : (a : Score) → exceeds a a ≡ false
exceeds_irrefl a = ground arith

exceeds_asymm : (a b : Score) → exceeds a b ≡ true → exceeds b a ≡ false
exceeds_asymm a b h = ground arith

module _ (s : Settings) (now : ℕ) where
  abbrev NotAbove : Payload → Payload → Type 0
  NotAbove best q = exceeds (score_of s now q) (score_of s now best) ≡ false

  better_of_cases :
      (best p : Payload)
      → (better_of s now best p ≡ p) × NotAbove p best
        ⊎ (better_of s now best p ≡ best) × NotAbove best p
  unfolding better_of
  better_of_cases best p = elim (Bool-cases (exceeds (score_of s now p) (score_of s now best))) [
    | inl above ↦ inl (rw above, exceeds_asymm _ _ above)
    | inr not_above ↦ inr (rw not_above, not_above)
  ]

  select_from-nil : (best : Payload) → select_from s now best [] ≡ best
  unfolding select_from
  select_from-nil best = refl

  select_from-cons :
      (best p b : Payload) (rest : List Payload)
      → better_of s now best p ≡ b
      → select_from s now best (p ∷ rest) ≡ select_from s now b rest
  unfolding select_from
  select_from-cons best p b rest e = ap (λ x. select_from s now x rest) e

  abbrev IsTop : Payload → List Payload → Payload → Type 0
  IsTop best rest b = NotAbove b best × All (NotAbove b) rest

  select_from-max :
      (best : Payload) (rest : List Payload) → IsTop best rest (select_from s now best rest)
  select_from-max best [] = rw select_from-nil (exceeds_irrefl _, tt)
  select_from-max best (p ∷ rest) = elim (better_of_cases best p) [
    | inl (e, above) ↦
        let (top, others) = select_from-max p rest in
        subst (IsTop best (p ∷ rest)) (sym (select_from-cons best p p rest e))
          (exceeds_trans _ _ _ above top, (top, others))
    | inr (e, kept) ↦
        let (top, others) = select_from-max best rest in
        subst (IsTop best (p ∷ rest)) (sym (select_from-cons best p best rest e))
          (top, (exceeds_trans _ _ _ kept top, others))
  ]

  select_from-Among :
      (best : Payload) (rest : List Payload) → Among (select_from s now best rest) (best ∷ rest)
  select_from-Among best [] = inl (select_from-nil best)
  select_from-Among best (p ∷ rest) = elim (better_of_cases best p) [
    | inl (e, _) ↦
        subst (λ b. Among b (best ∷ p ∷ rest)) (sym (select_from-cons best p p rest e))
          (inr (select_from-Among p rest))
    | inr (e, _) ↦
        subst (λ b. Among b (best ∷ p ∷ rest)) (sym (select_from-cons best p best rest e))
          (elim (select_from-Among best rest) [
            | inl first ↦ inl first
            | inr later ↦ inr (inr later)
          ])
  ]

-- The selected run is waiting, and no waiting run has a higher score.
pub select-IsMax :
    (s : Settings) (now : ℕ) (waiting : List Payload) (best : Payload)
    → select_highest_priority s now waiting ≡ some best
    → Among best waiting
      × All (λ q. exceeds (score_of s now q) (score_of s now best) ≡ false) waiting
unfolding select_highest_priority
select-IsMax s now [] best e = absurd (ground arith)
select-IsMax s now (p ∷ rest) best e =
    subst (λ b. Among b (p ∷ rest) × All (NotAbove s now b) (p ∷ rest)) (some-injective _ _ e)
      (select_from-Among s now p rest, select_from-max s now p rest)

-- While a run waits that has aged for the whole saturation time, no run is selected ahead of it
-- that has waited at most `w`, if the settings outweigh `w`.
pub selected_waited :
    (s : Settings) (w now : ℕ) (waiting : List Payload) (best old : Payload)
    → Outweighs s w
    → select_highest_priority s now waiting ≡ some best
    → Among old waiting
    → s.saturation ≤ now - old.enqueued_at
    → w < now - best.enqueued_at
selected_waited s w now waiting best old o e there aged =
    let (there', top) = select-IsMax s now waiting best e in
    let beaten = All-Among _ old waiting top there in
    elim (dec_lt w (now - best.enqueued_at)) [
      | yes waited ↦ waited
      | no recent ↦ absurd (
          false≢true (
            sym beaten
            ∙ aged_outscores s w now old.role best.role old.debug best.debug old.language
                best.language old.enqueued_at best.enqueued_at o aged (omega arith)))
    ]
