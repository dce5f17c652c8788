-- ===== src/Folders/Made.antt =====
-- A folder that is made stands somewhere below the top level.
use mathlib.Core.Path.{subst}
use cs455_project.Prelude.{
  ℕ, zero, suc, ◌≡◌, refl, Option, none, some, String, arith, inl, inr, ◌==◌, row-append,
  if◌then◌else◌, Option-cases, Bool-cases, Result-cases, ok, err, eq_of_==, ==-refl,
}
use cs455_project.Database.{Db, User, Folder, folder_row}
use cs455_project.Folders.{
  check_parent, enough_steps, check_given, may_edit, add_folder, create_folder,
}
use cs455_project.Folders.Walk.{IsAt, IsForest}
use cs455_project.Folders.Tree.{walk_row}

abbrev made : Db → ℕ → Option ℕ → String → Folder
made db p parent name = record {
  id = db.next_id;
  project_id = p;
  parent_folder_id = parent;
  name = name;
}

row-made :
    (db : Db) (p : ℕ) (parent : Option ℕ) (name : String) (i : ℕ)
    → folder_row (add_folder p parent name db) i ≡ elim (folder_row db i) [
      | some f ↦ some f
      | none ↦ if db.next_id == i then some (made db p parent name) else none
    ]
row-made db p parent name i = row-append (λ (f : Folder). f.id) i db.folders (made db p parent name)

IsAt-made :
    (db : Db) (p : ℕ) (parent : Option ℕ) (name : String) (n i : ℕ)
    → IsAt db n i
    → IsAt (add_folder p parent name db) n i
IsAt-made db p parent name zero i (f, at, top) =
    (f, ground (arith, row-made db p parent name i), top)
IsAt-made db p parent name (suc n) i (f, at, (j, under, a)) =
    (f, ground (arith, row-made db p parent name i), (j, under, IsAt-made db p parent name n j a))

new-IsAt :
    (db : Db) (p : ℕ) (parent : Option ℕ) (name : String) (u : Unit {0})
    → IsForest db
    → folder_row db db.next_id ≡ none
    → check_given db p parent none ≡ some (ok u)
    → (n : ℕ) × IsAt (add_folder p parent name db) n db.next_id
unfolding check_parent
new-IsAt db p none name u forest fresh passed = (
  0,
  (
    made db p none name,
    ground (arith, row-made db p none name db.next_id, ==-refl db.next_id),
    refl,
  ),
)
new-IsAt db p (some q) name u forest fresh passed =
    let (g, there) = walk_row (enough_steps db) db p q none u passed in
    let (n, a) = forest q g there in
    (
      suc n,
      (
        made db p (some q) name,
        ground (arith, row-made db p (some q) name db.next_id, ==-refl db.next_id),
        (q, refl, IsAt-made db p (some q) name n q a),
      ),
    )

-- If every folder's parents lead to the top level, and the next id has no folder yet, they do so after
-- a folder was made.
pub create_folder-IsForest :
    (db : Db) (user : User) (project_id : ℕ) (name : String) (parent_id : Option ℕ) (db' : Db)
    → IsForest db
    → folder_row db db.next_id ≡ none
    → create_folder db user project_id name parent_id ≡ some (ok db')
    → IsForest db'
unfolding create_folder
create_folder-IsForest db user p name parent db' forest fresh h =
    elim (Result-cases (may_edit db user p)) [
      | inr (e, refused) ↦ absurd (ground arith)
      | inl (project, allowed) ↦ elim (Option-cases (check_given db p parent none)) [
        | inl endless ↦ absurd (ground arith)
        | inr (err e, refused) ↦ absurd (ground arith)
        | inr (ok u, passed) ↦
            let added : add_folder p parent name db ≡ db' = ground arith in
            subst IsForest added (λ i f at. elim (Option-cases (folder_row db i)) [
              | inr (g, there) ↦
                  let (n, a) = forest i g there in (n, IsAt-made db p parent name n i a)
              | inl none_yet ↦ elim (Bool-cases (db.next_id == i)) [
                | inl same ↦
                    subst (λ k. (n : ℕ) × IsAt (add_folder p parent name db) n k)
                      (eq_of_== _ _ same) (new-IsAt db p parent name u forest fresh passed)
                | inr other ↦ absurd (ground (arith, row-made db p parent name i))
              ]
            ])
      ]
    ]
