-- ===== src/Members/Access.antt =====
-- What the membership rows guarantee to every permission check, after any sequence of requests.
use mathlib.Core.Path.{subst}
use cs455_project.Prelude.{
  ℕ, ◌+◌, ◌≤◌, ◌≡◌, ◌≢◌, ◌++◌, refl, Option, none, some, List, [], ◌∷◌, String, map, ◌==◌, where_,
  arith, length, ok, err, one_or_none, Bool-cases, Result-cases, inl, inr, multiple_results,
  eq_of_==, ◌⊎◌,
}
use cs455_project.Roles.{Role, owner, editor, role_rank}
use cs455_project.Database.{
  Db, User, Project, Member, is_member, project_row, member_of, get_member,
}
use cs455_project.Members.{
  create_project, request_to_join, approve_join_request, reject_join_request, add_project_member,
  remove_project_member, update_project_member_role, create_invitation, accept_invitation,
  may_invite, invitation_life,
}
use cs455_project.Members.Roster.{IsRostered}
use cs455_project.Members.Handlers.{
  create_project-IsRostered, request_to_join-IsRostered, approve-IsRostered, reject-IsRostered,
  add_project_member-IsRostered, remove-IsRostered, update-IsRostered, accept-IsRostered,
}

-- One request that was served.
pub data Step (db db' : Db) : Type 0 where
  creates : (user : User) (name : String) → create_project db user name ≡ ok db' → Step db db'
  requests : (user : User) (i : ℕ) → request_to_join db user i ≡ ok db' → Step db db'
  approves :
      (user : User) (i j : ℕ) (role : Role) (now : ℕ)
      → approve_join_request db user i j role now ≡ ok db'
      → Step db db'
  rejects : (user : User) (i j now : ℕ) → reject_join_request db user i j now ≡ ok db' → Step db db'
  adds :
      (user : User) (i : ℕ) (by_id : Option ℕ) (name : String) (role : Role)
      → add_project_member db user i by_id name role ≡ ok db'
      → Step db db'
  removes : (user : User) (i u : ℕ) → remove_project_member db user i u ≡ ok db' → Step db db'
  updates :
      (user : User) (i u : ℕ) (role : Role)
      → update_project_member_role db user i u role ≡ ok db'
      → Step db db'
  invites :
      (user : User) (i : ℕ) (role : Role) (token : String) (now : ℕ)
      → create_invitation db user i role token now ≡ ok db'
      → Step db db'
  accepts :
      (user : User) (token : String) (now : ℕ)
      → accept_invitation db user token now ≡ ok db'
      → Step db db'

pub data Reach (db : Db) : Db → Type 0 where
  here : Reach db db
  next : {mid last : Db} → Reach db mid → Step mid last → Reach db last

abbrev invited : Db → ℕ → Role → String → ℕ → Db
invited db i role token now = record db {
  next_id = db.next_id + 1;
  invitations =
      db.invitations
      ++ record {
        id = db.next_id;
        project_id = i;
        token = token;
        role = role;
        expires_at = now + invitation_life;
      }
        ∷ [];
}

invited-IsRostered :
    (db : Db) (i : ℕ) (role : Role) (token : String) (now : ℕ)
    → IsRostered db
    → IsRostered (invited db i role token now)
invited-IsRostered db i role token now r = record {
  single = r.single;
  owned = r.owned;
  outsiders = r.outsiders;
  fresh_projects = λ q new. r.fresh_projects q (omega arith);
  fresh_members = λ q v new. r.fresh_members q v (omega arith);
  fresh_requests = r.fresh_requests;
}

create_invitation-IsRostered :
    (db : Db) (user : User) (i : ℕ) (role : Role) (token : String) (now : ℕ) (db' : Db)
    → create_invitation db user i role token now ≡ ok db'
    → IsRostered db
    → IsRostered db'
unfolding create_invitation
create_invitation-IsRostered db user i role token now db' h r =
    elim (Result-cases (may_invite db user i role)) [
      | inr (e, refused) ↦ absurd (ground arith)
      | inl (p, allowed) ↦
          subst IsRostered (ground arith) (invited-IsRostered db i role token now r)
    ]

-- If the roster is in order, every request that is served keeps it so: nobody gets a second row in a
-- project, and the owner's row stays and stays an owner's.
pub Step-IsRostered : {db db' : Db} → IsRostered db → Step db db' → IsRostered db'
Step-IsRostered r (creates user name h) = create_project-IsRostered _ user name _ h r
Step-IsRostered r (requests user i h) = request_to_join-IsRostered _ user i _ h r
Step-IsRostered r (approves user i j role now h) = approve-IsRostered _ user i j role now _ h r
Step-IsRostered r (rejects user i j now h) = reject-IsRostered _ user i j now _ h r
Step-IsRostered r (adds user i by_id name role h) =
    add_project_member-IsRostered _ user i by_id name role _ h r
Step-IsRostered r (removes user i u h) = remove-IsRostered _ user i u _ h r
Step-IsRostered r (updates user i u role h) = update-IsRostered _ user i u role _ h r
Step-IsRostered r (invites user i role token now h) =
    create_invitation-IsRostered _ user i role token now _ h r
Step-IsRostered r (accepts user token now h) = accept-IsRostered _ user token now _ h r

pub Reach-IsRostered : {db db' : Db} → IsRostered db → Reach db db' → IsRostered db'
Reach-IsRostered r here = r
Reach-IsRostered r (next before step) = Step-IsRostered (Reach-IsRostered r before) step

single_row :
    (ms : List Member)
    → length (map (λ (m : Member). m.role) ms) ≤ 1
    → one_or_none ms ≢ err multiple_results
single_row [] h e = absurd (ground arith)
single_row (m ∷ []) h e = absurd (ground arith)
single_row (m ∷ n ∷ rest) h e = absurd (omega arith)

owner_row :
    (ms : List Member)
    → map (λ (m : Member). m.role) ms ≡ owner ∷ []
    → (m : Member) × (one_or_none ms ≡ ok (some m)) × (m.role ≡ owner)
owner_row [] h = absurd (ground arith)
owner_row (m ∷ []) h = (m, refl, ground arith)
owner_row (m ∷ n ∷ rest) h = absurd (ground arith)

-- From a roster in order and after any requests, a membership check never fails for having found two rows.
pub get_member_single :
    (db db' : Db) (p u : ℕ)
    → IsRostered db
    → Reach db db'
    → get_member db' p u ≢ err multiple_results
unfolding get_member
get_member_single db db' p u r reach e =
    single_row (where_ (is_member p u) db'.members) ((Reach-IsRostered r reach).single p u)
      (ground arith)

-- From a roster in order and after any requests, the owner of a project passes the membership check with the role of an owner.
pub owner_stays :
    (db db' : Db) (i : ℕ) (project : Project)
    → IsRostered db
    → Reach db db'
    → project_row db' i ≡ some project
    → (m : Member) × (get_member db' i project.owner_id ≡ ok m) × (m.role ≡ owner)
unfolding get_member
owner_stays db db' i project r reach at =
    let (m, there, is_owner) = owner_row _ ((Reach-IsRostered r reach).owned i project at) in
    (m, ground (arith, there), is_owner)

-- An invitation that is made to a role in an existing project is made by the project's owner, or by a member who is at least an
-- editor and whose own rank is not below that role's.
pub invite_within_rank :
    (db : Db) (user : User) (i : ℕ) (role : Role) (token : String) (now : ℕ) (db' : Db)
    (project : Project)
    → create_invitation db user i role token now ≡ ok db'
    → project_row db i ≡ some project
    → (project.owner_id ≡ user.id)
      ⊎ ((m : Member) × (get_member db i user.id ≡ ok m)
          × (role_rank role ≤ role_rank m.role)
          × (role_rank editor ≤ role_rank m.role))
unfolding create_invitation may_invite get_member
invite_within_rank db user i role token now db' project h at_i =
    elim (Bool-cases (project.owner_id == user.id)) [
      | inl owns ↦ inl (eq_of_== _ _ owns)
      | inr other ↦ elim (Result-cases (member_of db i user.id)) [
        | inr (e, failed) ↦ absurd (ground arith)
        | inl (none, out) ↦ absurd (ground arith)
        | inl (some m, there) ↦
            inr (m, ground (arith, there), ground (arith, there), ground (arith, there))
      ]
    ]
