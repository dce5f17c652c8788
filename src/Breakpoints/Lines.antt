-- ===== src/Breakpoints/Lines.antt =====
-- What a file's breakpoints are after they were set.
use mathlib.Core.Path.{subst}
use cs455_project.Prelude.{
  ℕ, ◌+◌, ◌<◌, ◌≡◌, refl, Bool, true, false, not, List, [], ◌∷◌, ◌++◌, ◌==◌, where_, map, foldr,
  leb, any, arith, add_id, any-sorted, IsAbove, sorted-IsAbove, All, ℤ, pos, negsuc, if◌then◌else◌,
  ok, Result-cases, Bool-cases, inl, inr, ==-refl,
}
use cs455_project.Database.{Db, Breakpoint, Member, get_member}
use cs455_project.Control.{Slots}
use cs455_project.Breakpoints.{
  require_debugger, file_in_project, of_file, new_rows, replace, positive, set_file_breakpoints,
  Command, is_step, admit_command,
}
use cs455_project.Runs.{may_debug}

abbrev lines_of : ℕ → List Breakpoint → List (ℕ × Bool)
lines_of file_id bs = map (λ (b : Breakpoint). (b.line, b.enabled)) (where_ (of_file file_id) bs)

lines-append :
    (f : ℕ) (xs ys : List Breakpoint) → lines_of f (xs ++ ys) ≡ lines_of f xs ++ lines_of f ys
lines-append f [] ys = refl
lines-append f (x ∷ xs) ys = ground (arith, lines-append f xs ys)

lines-rest :
    (f g : ℕ) (bs : List Breakpoint)
    → lines_of g (where_ (λ b. not (of_file f b)) bs) ≡ (if f == g then [] else lines_of g bs)
lines-rest f g [] = ground arith
lines-rest f g (b ∷ bs) = ground (arith, lines-rest f g bs)

lines-new_rows :
    (next f u g : ℕ) (ls : List (ℕ × Bool))
    → lines_of g (new_rows next f u ls) ≡ (if f == g then ls else [])
lines-new_rows next f u g [] = ground arith
lines-new_rows next f u g ((line, enabled) ∷ rest) =
    ground (arith, lines-new_rows (next + 1) f u g rest)

append_nil : (ls : List (ℕ × Bool)) → ls ++ [] ≡ ls
append_nil [] = refl
append_nil (l ∷ ls) = ground (arith, append_nil ls)

lines-replace :
    (f u g : ℕ) (ls : List (ℕ × Bool)) (db : Db)
    → lines_of g (replace f ls u db).breakpoints
      ≡ (if f == g then ls else lines_of g db.breakpoints)
unfolding replace
lines-replace f u g ls db = rw lines-append (
    ground (
      arith,
      lines-rest f g db.breakpoints,
      lines-new_rows db.next_id f u g ls,
      append_nil (lines_of g db.breakpoints),
    ))

positive-above : (ls : List ℤ) → All (λ n. 0 < n) (positive ls)
positive-above [] = tt
positive-above (pos n ∷ rest) = elim (Bool-cases (leb 1 n)) [
  | inl kept ↦ rw kept (ground arith, positive-above rest)
  | inr out ↦ rw out (positive-above rest)
]
positive-above (negsuc n ∷ rest) = positive-above rest

-- The file's breakpoints are `lines`, which ascend from 1 and are those asked for; other files keep theirs.
pub record HasLines (file_id : ℕ) (asked : List ℤ) (db db' : Db) : Type 0 where
  pub lines : List ℕ
  pub stored : lines_of file_id db'.breakpoints ≡ map (λ n. (n, true)) lines
  pub ascending : IsAbove 0 lines
  pub same : (n : ℕ) → any (λ k. k == n) lines ≡ any (λ k. k == n) (positive asked)
  pub others :
      (g : ℕ) → file_id == g ≡ false → lines_of g db'.breakpoints ≡ lines_of g db.breakpoints

-- When a file's breakpoints have been set, they are enabled, stand in ascending order without
-- repetition from line 1 on, and are the lines of the request that are at least 1; every other file's
-- breakpoints are as they were.
pub set_file_breakpoints-HasLines :
    (db : Db) (project_id file_id user_id : ℕ) (asked : List ℤ) (db' : Db)
    → set_file_breakpoints db project_id file_id user_id asked ≡ ok db'
    → HasLines file_id asked db db'
unfolding set_file_breakpoints
set_file_breakpoints-HasLines db p f u asked db' h =
    let sorted : List ℕ = foldr add_id [] (positive asked) in
    elim (Result-cases (require_debugger db p u)) [
      | inr (e, refused) ↦ absurd (ground arith)
      | inl (m, allowed) ↦ elim (Result-cases (file_in_project db p f)) [
        | inr (e, missing) ↦ absurd (ground arith)
        | inl (file, there) ↦
            let made : replace f (map (λ n. (n, true)) sorted) u db ≡ db' = ground arith in
            subst (HasLines f asked db) made (record {
              lines = sorted;
              stored =
                  ground (arith, lines-replace f u f (map (λ n. (n, true)) sorted) db, ==-refl f);
              ascending = sorted-IsAbove 0 (positive asked) (positive-above asked);
              same = λ n. any-sorted n (positive asked);
              others =
                  λ g apart. ground (arith, lines-replace f u g (map (λ n. (n, true)) sorted) db);
            })
      ]
    ]

-- A command that steps, pauses or stops a program and is let through is from a member who may debug.
pub admit_command_stepping :
    (online : Bool) (db : Db) (slots : Slots) (project_id execution_id user_id : ℕ)
    (command : Command) (u : Unit {0})
    → admit_command online db slots project_id execution_id user_id command ≡ ok u
    → is_step command ≡ true
    → (m : Member) × (get_member db project_id user_id ≡ ok m) × (may_debug m.role ≡ true)
unfolding admit_command require_debugger
admit_command_stepping online db slots p i user command u h step =
    elim (Result-cases (get_member db p user)) [
      | inr (e, failed) ↦ absurd (ground arith)
      | inl (m, there) ↦ (m, there, ground arith)
    ]
