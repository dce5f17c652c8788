-- ===== src/Members.antt =====
-- Projects, their members, join requests and invitations: backend/app/api/projects.py and
-- backend/app/api/invitations.py. A successful handler gives the database that it commits.
pub mod Roster
pub mod Keeps
pub mod Handlers
pub mod Access
use cs455_project.Prelude.{
  ℕ, ◌+◌, Bool, true, false, ◌&&◌, ◌||◌, not, Option, none, some, List, [], ◌∷◌, ◌++◌, String, map,
  ltb, ◌==◌, where_, row, modify, if◌then◌else◌, Failure, http, Result, ok, err, ◌>>=◌, ◌>>◌,
  require, found, one_or_none, any,
}
use text.Mathlib.Text.{◌==◌ as str_eq}
use cs455_project.Roles.{Role, viewer, editor, owner, at_least, outranks}
use cs455_project.Database.{
  Db, User, Project, Member, Invitation, JoinRequest, JoinRequestStatus, pending, approved,
  rejected, File, is_member, member_of, get_member, project_row, user_row,
}

-- `db.add(ProjectMember(...))`
abbrev pub add_member : ℕ → ℕ → Role → Db → Db
add_member project_id user_id role db = record db {
  next_id = db.next_id + 1;
  members =
      db.members
      ++ record { id = db.next_id; project_id = project_id; user_id = user_id; role = role } ∷ [];
}

-- `member.role = role` of the one row of this user in this project
abbrev pub set_role : ℕ → ℕ → Role → Db → Db
set_role project_id user_id role db = record db {
  members =
      map (λ (m : Member). if is_member project_id user_id m then record m { role = role } else m)
        db.members;
}

-- `db.delete(member)`
abbrev pub delete_member : ℕ → ℕ → Db → Db
delete_member project_id user_id db = record db {
  members = where_ (λ m. not (is_member project_id user_id m)) db.members;
}

-- The role of the row that is there, or a new row.
abbrev pub grant : ℕ → ℕ → Role → Option Member → Db → Db
grant project_id user_id role none db = add_member project_id user_id role db
grant project_id user_id role (some m) db = set_role project_id user_id role db

-- The project, its owner's membership and the starter file.
unfoldable pub create_project : Db → User → String → Result Db
create_project db user name =
    let i = db.next_id in
    ok (
      add_member i user.id owner (record db {
        next_id = db.next_id + 2;
        projects = db.projects ++ record { id = i; owner_id = user.id; name = name } ∷ [];
        files =
            db.files
            ++ record {
              id = db.next_id + 1;
              project_id = i;
              folder_id = none;
              path = "main.py";
              language = "python";
            }
              ∷ [];
      }))

unfoldable pub join_project : Db → User → ℕ → Result Role
join_project db user project_id = do
  project ← found (project_row db project_id) 404
  member ← member_of db project_id user.id
  m ← found member 403
  ok m.role

unfoldable pub get_owned_project : Db → ℕ → User → Result Project
get_owned_project db project_id user = do
  project ← found (project_row db project_id) 404
  require (project.owner_id == user.id) 403
  ok project

abbrev pub is_pending : JoinRequestStatus → Bool
is_pending pending = true
is_pending approved = false
is_pending rejected = false

abbrev pub request_row : Db → ℕ → Option JoinRequest
request_row db i = row (λ r. r.id) i db.join_requests

unfoldable pub get_pending_request : Db → ℕ → ℕ → Result JoinRequest
get_pending_request db project_id request_id = do
  r ← found (request_row db request_id) 404
  require (r.project_id == project_id) 404
  require (is_pending r.status) 409
  ok r

abbrev pub asks : ℕ → ℕ → JoinRequest → Bool
asks project_id user_id r =
    r.project_id == project_id && r.user_id == user_id && is_pending r.status

unfoldable pub may_ask : Db → User → ℕ → Result Project
may_ask db user project_id = do
  project ← found (project_row db project_id) 404
  member ← member_of db project_id user.id
  require (elim member [ none ↦ true | some m ↦ false ]) 409
  request ← one_or_none (where_ (asks project_id user.id) db.join_requests)
  require (elim request [ none ↦ true | some r ↦ false ]) 409
  ok project

abbrev pub add_request : ℕ → ℕ → Db → Db
add_request project_id user_id db = record db {
  next_id = db.next_id + 1;
  join_requests =
      db.join_requests
      ++ record {
        id = db.next_id;
        project_id = project_id;
        user_id = user_id;
        status = pending;
        decided_at = none;
      }
        ∷ [];
}

unfoldable pub request_to_join : Db → User → ℕ → Result Db
request_to_join db user project_id = do
  project ← may_ask db user project_id
  ok (add_request project_id user.id db)

abbrev pub decide : ℕ → JoinRequestStatus → ℕ → Db → Db
decide request_id status now db = record db {
  join_requests =
      modify (λ r. r.id) request_id
        (λ (r : JoinRequest). record r { status = status; decided_at = some now }) db.join_requests;
}

-- The role of an approval is below owner: the schema allows no other.
unfoldable pub approve_join_request : Db → User → ℕ → ℕ → Role → ℕ → Result Db
approve_join_request db user project_id request_id role now = do
  project ← get_owned_project db project_id user
  r ← get_pending_request db project_id request_id
  member ← member_of db project_id r.user_id
  ok (decide request_id approved now (grant project_id r.user_id role member db))

unfoldable pub reject_join_request : Db → User → ℕ → ℕ → ℕ → Result Db
reject_join_request db user project_id request_id now = do
  project ← get_owned_project db project_id user
  r ← get_pending_request db project_id request_id
  ok (decide request_id rejected now db)

unfoldable pub get_project : Db → User → ℕ → Result Project
get_project db user project_id = do
  project ← found (project_row db project_id) 404
  (if project.owner_id == user.id
      then ok project
      else (do member ← get_member db project_id user.id; ok project))

abbrev user_by_id : Db → Option ℕ → Option User
user_by_id db none = none
user_by_id db (some i) = user_row db i

-- By id where the text is a number, else or failing that by name. `by_id` is that number.
unfoldable pub find_user : Db → Option ℕ → String → Result (Option User)
find_user db by_id name = elim (user_by_id db by_id) [
  | some u ↦ ok (some u)
  | none ↦
      if str_eq name ""
      then ok none
      else one_or_none (where_ (λ (u : User). str_eq u.username name) db.users)
]

unfoldable pub may_add : Db → User → ℕ → Option ℕ → String → Result (Project × User)
may_add db user project_id by_id name = do
  project ← get_owned_project db project_id user
  candidate ← find_user db by_id name
  u ← found candidate 404
  require (not (u.id == project.owner_id)) 400
  ok (project, u)

unfoldable pub add_project_member : Db → User → ℕ → Option ℕ → String → Role → Result Db
add_project_member db user project_id by_id name role = do
  checked ← may_add db user project_id by_id name
  member ← member_of db project_id checked.1.id
  ok (grant project_id checked.1.id role member db)

unfoldable pub may_remove : Db → User → ℕ → ℕ → Result Project
may_remove db user project_id user_id = do
  project ← get_owned_project db project_id user
  require (not (user_id == project.owner_id)) 400
  ok project

unfoldable pub remove_project_member : Db → User → ℕ → ℕ → Result Db
remove_project_member db user project_id user_id = do
  project ← may_remove db user project_id user_id
  member ← member_of db project_id user_id
  m ← found member 404
  ok (delete_member project_id user_id db)

-- The order of the checks is another one here: the row is looked for first.
unfoldable pub may_update : Db → User → ℕ → ℕ → Result Project
may_update db user project_id user_id = do
  project ← get_owned_project db project_id user
  member ← member_of db project_id user_id
  m ← found member 404
  require (not (user_id == project.owner_id)) 400
  ok project

unfoldable pub update_project_member_role : Db → User → ℕ → ℕ → Role → Result Db
update_project_member_role db user project_id user_id role = do
  project ← may_update db user project_id user_id
  ok (set_role project_id user_id role db)

-- Who may invite to a role: the owner to any, an editor or higher to none above their own.
unfoldable pub may_invite : Db → User → ℕ → Role → Result Project
may_invite db user project_id role = do
  project ← found (project_row db project_id) 404
  (if project.owner_id == user.id then ok project else (do
    member ← member_of db project_id user.id
    m ← found member 403
    require (at_least m.role editor) 403
    require (not (outranks role m.role)) 403
    ok project))

-- Seven days, in microseconds
abbrev pub invitation_life : ℕ
invitation_life = 604800000000

-- `token` is what `secrets.token_urlsafe` gives.
unfoldable pub create_invitation : Db → User → ℕ → Role → String → ℕ → Result Db
create_invitation db user project_id role token now = do
  project ← may_invite db user project_id role
  ok (record db {
    next_id = db.next_id + 1;
    invitations =
        db.invitations
        ++ record {
          id = db.next_id;
          project_id = project_id;
          token = token;
          role = role;
          expires_at = now + invitation_life;
        }
          ∷ [];
  })

-- The invitation that an accepted token names, and its project.
unfoldable pub may_accept : Db → User → String → ℕ → Result (Invitation × Project)
may_accept db user token now = do
  candidate ← one_or_none (where_ (λ (i : Invitation). str_eq i.token token) db.invitations)
  inv ← found candidate 404
  require (not (ltb inv.expires_at now)) 410
  project ← found (project_row db inv.project_id) 404
  require (not (project.owner_id == user.id || any (is_member project.id user.id) db.members)) 409
  ok (inv, project)

unfoldable pub accept_invitation : Db → User → String → ℕ → Result Db
accept_invitation db user token now = do
  checked ← may_accept db user token now
  let granted = add_member checked.1.id user.id checked.0.role db
  ok (record granted {
    invitations = where_ (λ (i : Invitation). not (i.id == checked.0.id)) granted.invitations;
  })
