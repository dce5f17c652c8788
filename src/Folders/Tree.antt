-- ===== src/Folders/Tree.antt =====
-- No move makes a loop of folders.
use mathlib.Core.Path.{subst}
use mathlib.Core.Option
use cs455_project.Prelude.{
  ℕ, zero, suc, ◌≡◌, refl, sym, Option, none, some, [], arith, inl, inr, ◌==◌, row-modify,
  if◌then◌else◌, Option-cases, Bool-cases, Result-cases, ok, err, ==-refl, eq_of_==,
}
use cs455_project.Database.{Db, User, Folder, folder_row}
use cs455_project.Folders.{
  walk, check_parent, enough_steps, check_moved, may_edit, folder_of_project, Changes, new_parent,
  change_folder, update_folder, new_name,
}
use cs455_project.Folders.Walk.{IsAt, IsForest, IsClear, walk-IsClear, ==-sym}

-- A folder that was moved, in the new rows.
row-change :
    (db : Db) (m : ℕ) (c : Changes) (i : ℕ) (f : Folder)
    → folder_row db i ≡ some f
    → (f' : Folder) × (folder_row (change_folder m c db) i ≡ some f')
      × (f'.parent_folder_id
          ≡ (if m == i then new_parent c.parent f.parent_folder_id else f.parent_folder_id))
row-change db m c i f at = elim (Bool-cases (m == i)) [
  | inl same ↦ (
    record f {
      name = new_name c.name f.name;
      parent_folder_id = new_parent c.parent f.parent_folder_id;
    },
    ground (arith, same, changed),
    ground (arith, same),
  )
  | inr other ↦ (f, ground (arith, other, changed), ground (arith, other))
]
  where
    changed : folder_row (change_folder m c db) i ≡ (
        if m == i
        then Option.map
            (λ (f : Folder). record f {
              name = new_name c.name f.name;
              parent_folder_id = new_parent c.parent f.parent_folder_id;
            })
            (folder_row db i)
        else folder_row db i)
    changed =
        row-modify (λ (f : Folder). f.id) m i
          (λ f. record f {
            name = new_name c.name f.name;
            parent_folder_id = new_parent c.parent f.parent_folder_id;
          })
          db.folders (λ f. refl)

IsClear-change :
    (db : Db) (m : ℕ) (c : Changes) (n i : ℕ)
    → IsAt db n i
    → IsClear db m n i
    → IsAt (change_folder m c db) n i
IsClear-change db m c zero i (f, at, top) clear =
    let (f', at', parent) = row-change db m c i f at in (f', at', ground (arith, ==-sym i m))
IsClear-change db m c (suc n) i (f, at, (j, under, a)) (clear, above) =
    let (f', at', parent) = row-change db m c i f at in
    (f', at', (j, ground (arith, ==-sym i m), IsClear-change db m c n j a (above f j at under)))

-- If the moved folder reaches the top after the change, every folder does.
forest-change :
    (db : Db) (m : ℕ) (c : Changes) (n i : ℕ)
    → ((k : ℕ) × IsAt (change_folder m c db) k m)
    → IsAt db n i
    → (k : ℕ) × IsAt (change_folder m c db) k i
forest-change db m c zero i moved (f, at, top) = elim (Bool-cases (m == i)) [
  | inl same ↦ subst (λ x. (k : ℕ) × IsAt (change_folder m c db) k x) (eq_of_== m i same) moved
  | inr other ↦
      let (f', at', parent) = row-change db m c i f at in (0, (f', at', ground (arith, other)))
]
forest-change db m c (suc n) i moved (f, at, (j, under, a)) = elim (Bool-cases (m == i)) [
  | inl same ↦ subst (λ x. (k : ℕ) × IsAt (change_folder m c db) k x) (eq_of_== m i same) moved
  | inr other ↦
      let (f', at', parent) = row-change db m c i f at in
      let (k, a') = forest-change db m c n j moved a in
      (suc k, (f', at', (j, ground (arith, other), a')))
]

IsAt-rename :
    (db : Db) (m : ℕ) (c : Changes)
    → c.parent ≡ none
    → (n i : ℕ) → IsAt db n i
    → IsAt (change_folder m c db) n i
IsAt-rename db m c same zero i (f, at, top) =
    let (f', at', parent) = row-change db m c i f at in (f', at', ground arith)
IsAt-rename db m c same (suc n) i (f, at, (j, under, a)) =
    let (f', at', parent) = row-change db m c i f at in
    (f', at', (j, ground arith, IsAt-rename db m c same n j a))

pub walk_row :
    (fuel : ℕ) (db : Db) (p q : ℕ) (moving : Option ℕ) (u : Unit {0})
    → walk fuel db p moving [] (some q) ≡ some (ok u)
    → (g : Folder) × (folder_row db q ≡ some g)
unfolding walk
walk_row zero db p q moving u h = absurd (ground arith)
walk_row (suc fuel) db p q moving u h = elim (Option-cases (folder_row db q)) [
  | inl gone ↦ absurd (ground arith)
  | inr (g, there) ↦ (g, there)
]

-- A move that was checked: to the top, or below a folder from which the walk has passed.
moved-IsAt :
    (db : Db) (p m : ℕ) (c : Changes) (f : Folder) (u : Unit {0})
    → IsForest db
    → folder_row db m ≡ some f
    → check_moved db p m c.parent ≡ some (ok u)
    → (k : ℕ) × IsAt (change_folder m c db) k m
unfolding check_parent
moved-IsAt db p m c f u forest at passed =
    let (f', at', parent) = row-change db m c m f at in
    elim (Option-cases c.parent) [
      | inl same ↦ let (k, a) = forest m f at in (k, IsAt-rename db m c same k m a)
      | inr (none, to_top) ↦ (0, (f', at', ground (arith, ==-refl m)))
      | inr (some q, below) ↦
          let walked : walk (enough_steps db) db p (some m) [] (some q) ≡ some (ok u) =
            ground arith in
          let (g, there) = walk_row (enough_steps db) db p q (some m) u walked in
          let (n, a) = forest q g there in
          let clear =
            walk-IsClear (enough_steps db) db p m [] n q u a (λ s h. absurd (ground arith))
              walked in
          (suc n, (f', at', (q, ground (arith, ==-refl m), IsClear-change db m c n q a clear)))
    ]

-- The checks of a served update.
update_checks :
    (db : Db) (user : User) (p m : ℕ) (c : Changes) (db' : Db)
    → update_folder db user p m c ≡ some (ok db')
    → (f : Folder) × (u : Unit {0}) × (folder_row db m ≡ some f)
      × (check_moved db p m c.parent ≡ some (ok u))
      × (db' ≡ change_folder m c db)
unfolding update_folder folder_of_project
update_checks db user p m c db' h = elim (Option-cases (folder_row db m)) [
  | inl gone ↦ absurd (ground arith)
  | inr (f, at) ↦ elim (Result-cases (may_edit db user p)) [
    | inr (e, refused) ↦ absurd (ground arith)
    | inl (project, allowed) ↦ elim (Option-cases (check_moved db p m c.parent)) [
      | inl endless ↦ absurd (ground arith)
      | inr (err e, refused) ↦ absurd (ground arith)
      | inr (ok u, passed) ↦ (f, u, at, passed, ground arith)
    ]
  ]
]

row-back :
    (db : Db) (m : ℕ) (c : Changes) (i : ℕ) (f' : Folder)
    → folder_row (change_folder m c db) i ≡ some f'
    → (f : Folder) × (folder_row db i ≡ some f)
row-back db m c i f' h = elim (Option-cases (folder_row db i)) [
  | inr found_it ↦ found_it
  | inl gone ↦ absurd (
      ground (
        arith,
        row-modify (λ (f : Folder). f.id) m i
            (λ f. record f {
              name = new_name c.name f.name;
              parent_folder_id = new_parent c.parent f.parent_folder_id;
            })
            db.folders (λ f. refl),
      ))
]

-- If every folder's parents lead to the top level, they do so after every served rename or move: no
-- move puts a folder into itself or into one below it.
pub update_folder-IsForest :
    (db : Db) (user : User) (project_id folder_id : ℕ) (c : Changes) (db' : Db)
    → IsForest db
    → update_folder db user project_id folder_id c ≡ some (ok db')
    → IsForest db'
update_folder-IsForest db user p m c db' forest h =
    let (f, u, at, passed, made) = update_checks db user p m c db' h in
    subst IsForest (sym made) (λ i f' at'.
      let (g, there) = row-back db m c i f' at' in
      let (n, a) = forest i g there in
      forest-change db m c n i (moved-IsAt db p m c f u forest at passed) a)
