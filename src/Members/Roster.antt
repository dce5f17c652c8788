-- ===== src/Members/Roster.antt =====
-- The roles that the membership rows give, and what the writes do to them.
use cs455_project.Prelude.{
  ℕ, ◌≢◌, ◌≤◌, ◌≡◌, Bool, false, ◌&&◌, not, none, some, List, [], ◌∷◌, ◌++◌, map, ◌==◌, where_,
  arith, length, if◌then◌else◌,
}
use cs455_project.Roles.{Role, owner}
use cs455_project.Database.{Db, Project, Member, JoinRequest, is_member, project_row}
use cs455_project.Members.{request_row, set_role, delete_member}

-- The roles of the rows of one user in one project.
abbrev pub roles : ℕ → ℕ → List Member → List Role
roles p u ms = map (λ (m : Member). m.role) (where_ (is_member p u) ms)

abbrev pub is_pair : ℕ → ℕ → ℕ → ℕ → Bool
is_pair p u q v = p == q && u == v

-- Nobody has two rows in a project, a project's owner has a row as owner, nobody has asked to join a
-- project of their own, and ids not yet given are not used.
pub record IsRostered (db : Db) : Type 0 where
  pub single : (p u : ℕ) → length (roles p u db.members) ≤ 1
  pub owned :
      (i : ℕ) (p : Project) → project_row db i ≡ some p → roles i p.owner_id db.members ≡ owner ∷ []
  pub outsiders :
      (i : ℕ) (r : JoinRequest) (p : Project)
      → request_row db i ≡ some r
      → project_row db r.project_id ≡ some p
      → r.user_id == p.owner_id ≡ false
  pub fresh_projects : (i : ℕ) → db.next_id ≤ i → project_row db i ≡ none
  pub fresh_members : (i u : ℕ) → db.next_id ≤ i → roles i u db.members ≡ []
  pub fresh_requests :
      (i : ℕ) (r : JoinRequest) → request_row db i ≡ some r → project_row db r.project_id ≢ none

pub roles-append :
    (p u : ℕ) (ms : List Member) (m : Member)
    → roles p u (ms ++ m ∷ []) ≡ roles p u ms ++ (if is_member p u m then m.role ∷ [] else [])
roles-append p u [] m = ground arith
roles-append p u (x ∷ ms) m = ground (arith, roles-append p u ms m)

pub roles-set_role :
    (p u : ℕ) (role : Role) (db : Db) (q v : ℕ)
    → roles q v (set_role p u role db).members
      ≡ (if is_pair p u q v then map (λ _. role) (roles q v db.members) else roles q v db.members)
roles-set_role p u role db q v = go db.members
  where
    go :
        (ms : List Member)
        → roles q v
            (map (λ (m : Member). if is_member p u m then record m { role = role } else m) ms)
          ≡ (if is_pair p u q v then map (λ _. role) (roles q v ms) else roles q v ms)
    go [] = ground arith
    go (m ∷ ms) = ground (arith, go ms)

pub roles-delete_member :
    (p u : ℕ) (db : Db) (q v : ℕ)
    → roles q v (delete_member p u db).members
      ≡ (if is_pair p u q v then [] else roles q v db.members)
roles-delete_member p u db q v = go db.members
  where
    go :
        (ms : List Member)
        → roles q v (where_ (λ m. not (is_member p u m)) ms)
          ≡ (if is_pair p u q v then [] else roles q v ms)
    go [] = ground arith
    go (m ∷ ms) = ground (arith, go ms)
