-- ===== src/Documents/Latest.antt =====
-- What the latest version of a file is after a version is added or marked.
use mathlib.Core.Path.{subst}
use cs455_project.Prelude.{
  ℕ, ◌<◌, false, Option, none, some, List, [], ◌∷◌, ◌++◌, ◌==◌, if◌then◌else◌, ◌≡◌, refl, inl, inr,
  Bool-cases, arith,
}
use cs455_project.Documents.{DocumentVersion, newer, latest_version}

-- All numbers of the file are below.
abbrev pub IsBelow : Option DocumentVersion → ℕ → Type 0
IsBelow none n = Unit
IsBelow (some v) n = v.version_number < n

before_newer :
    (v : DocumentVersion) (later : Option DocumentVersion) (n : ℕ)
    → IsBelow (some (newer v later)) n
    → IsBelow later n × (v.version_number < n)
before_newer v none n h = (tt, h)
before_newer v (some w) n h = ground arith

pub latest-append :
    (file_id : ℕ) (vs : List DocumentVersion) (v : DocumentVersion)
    → v.file_id ≡ file_id
    → IsBelow (latest_version file_id vs) v.version_number
    → latest_version file_id (vs ++ v ∷ []) ≡ some v
latest-append file_id [] v e h = ground (arith, e)
latest-append file_id (x ∷ xs) v e h = elim (Bool-cases (x.file_id == file_id)) [
  | inl f ↦
      let whole : IsBelow (some (newer x (latest_version file_id xs))) v.version_number =
        subst
          (λ b.
            IsBelow
              (if b then some (newer x (latest_version file_id xs)) else latest_version file_id xs)
              v.version_number)
          f h in
      let (rest, this) = before_newer x (latest_version file_id xs) v.version_number whole in
      rw (f, latest-append file_id xs v e rest) (ground (arith, this))
  | inr f ↦
      let rest : IsBelow (latest_version file_id xs) v.version_number =
        subst
          (λ b.
            IsBelow
              (if b then some (newer x (latest_version file_id xs)) else latest_version file_id xs)
              v.version_number)
          f h in
      rw (f, latest-append file_id xs v e rest) refl
]

pub latest-append_other :
    (file_id : ℕ) (vs : List DocumentVersion) (v : DocumentVersion)
    → (v.file_id == file_id) ≡ false
    → latest_version file_id (vs ++ v ∷ []) ≡ latest_version file_id vs
latest-append_other file_id [] v e = rw e refl
latest-append_other file_id (x ∷ xs) v e = rw (latest-append_other file_id xs v e) refl
