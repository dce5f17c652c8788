-- ===== src/Members/Handlers.antt =====
-- Every membership handler keeps the roster, so `get_member` always finds one row or none.
use mathlib.Core.Path.{subst}
use text.Mathlib.Text.{◌==◌ as str_eq}
use cs455_project.Prelude.{
  ℕ, ◌+◌, ◌≡◌, sym, refl, true, false, not, Option, none, some, List, [], ◌∷◌, ◌++◌, String, ◌==◌,
  where_, any, arith, if◌then◌else◌, ok, one_or_none, Option-cases, Bool-cases, Result-cases, inl,
  inr, row-append, row, eq_of_==, ap, length-append, key-row, ◌⊎◌, ==-refl,
}
use cs455_project.Roles.{Role, owner}
use cs455_project.Database.{approved, rejected}
use cs455_project.Database.{
  File, Db, User, Project, Member, Invitation, JoinRequest, is_member, project_row, member_of,
}
use cs455_project.Members.{
  request_row, add_member, grant, decide, create_project, request_to_join, may_ask,
  get_owned_project, get_pending_request, approve_join_request, reject_join_request, may_add,
  add_project_member, may_remove, remove_project_member, may_update, update_project_member_role,
  may_accept, accept_invitation, find_user, asks,
}
use cs455_project.Members.Roster.{IsRostered, roles, is_pair, roles-append}
use cs455_project.Members.Keeps.{
  IsOther, grant-IsRostered, set_role-keeps, delete_member-IsRostered, decide-IsRostered,
  add_request-IsRostered, add_member-IsRostered, none-roles,
}

may_ask-row :
    (db : Db) (user : User) (i : ℕ) (project : Project)
    → may_ask db user i ≡ ok project
    → project_row db i ≡ some project
unfolding may_ask
may_ask-row db user i project h = elim (Result-cases (member_of db i user.id)) [
  | inr (e, failed) ↦ absurd (ground arith)
  | inl (m, there) ↦ elim (Result-cases (one_or_none (where_ (asks i user.id) db.join_requests))) [
    | inr (e, failed) ↦ absurd (ground arith)
    | inl (x, asked) ↦ ground arith
  ]
]

may_ask-none :
    (db : Db) (user : User) (i : ℕ) (project : Project)
    → may_ask db user i ≡ ok project
    → member_of db i user.id ≡ ok none
unfolding may_ask
may_ask-none db user i project h = elim (Result-cases (member_of db i user.id)) [
  | inr (e, failed) ↦ absurd (ground arith)
  | inl (none, there) ↦ there
  | inl (some m, there) ↦ absurd (ground arith)
]

abbrev uninvited : ℕ → Db → Db
uninvited i db = record db {
  invitations = where_ (λ (x : Invitation). not (x.id == i)) db.invitations;
}

uninvited-IsRostered : {db : Db} (i : ℕ) → IsRostered db → IsRostered (uninvited i db)
uninvited-IsRostered i r = record {
  single = r.single;
  owned = r.owned;
  outsiders = r.outsiders;
  fresh_projects = r.fresh_projects;
  fresh_members = r.fresh_members;
  fresh_requests = r.fresh_requests;
}

==-sym : (a b : ℕ) → (a == b) ≡ (b == a)
==-sym a b = ground arith

-- The owner's own request is only let through where the owner has no row, which the roster excludes.
may_ask-IsOther :
    (db : Db) (user : User) (i : ℕ) (project : Project)
    → may_ask db user i ≡ ok project
    → IsRostered db
    → (project_row db i ≡ some project) × (user.id == project.owner_id ≡ false)
unfolding may_ask
may_ask-IsOther db user i project h r =
    let at_i : project_row db i ≡ some project = may_ask-row db user i project h in
    let out : roles i user.id db.members ≡ [] =
      none-roles i user.id db.members (may_ask-none db user i project h) in
    (
      at_i,
      elim (Bool-cases (user.id == project.owner_id)) [
        | inr other ↦ other
        | inl same ↦ absurd (
            ground (
              arith,
              r.owned i project at_i,
              ap (λ v. roles i v db.members) (eq_of_== _ _ same),
              out,
            ))
      ],
    )

pub request_to_join-IsRostered :
    (db : Db) (user : User) (i : ℕ) (db' : Db)
    → request_to_join db user i ≡ ok db'
    → IsRostered db
    → IsRostered db'
unfolding request_to_join
request_to_join-IsRostered db user i db' h r = elim (Result-cases (may_ask db user i)) [
  | inr (e, refused) ↦ absurd (ground arith)
  | inl (project, let_through) ↦
      let (at_i, other) = may_ask-IsOther db user i project let_through r in
      subst IsRostered (ground arith) (add_request-IsRostered db i user.id project at_i other r)
]

-- What the checks of an approval give.
approve_checks :
    (db : Db) (user : User) (i j : ℕ) (role : Role) (now : ℕ) (db' : Db)
    → approve_join_request db user i j role now ≡ ok db'
    → (project : Project) × (x : JoinRequest) × (m : Option Member) × (project_row db i
        ≡ some project)
      × (request_row db j ≡ some x)
      × (x.project_id ≡ i)
      × (member_of db i x.user_id ≡ ok m)
      × (db' ≡ decide j approved now (grant i x.user_id role m db))
unfolding approve_join_request get_owned_project get_pending_request
approve_checks db user i j role now db' h = elim (Option-cases (project_row db i)) [
  | inl gone ↦ absurd (ground arith)
  | inr (project, at_i) ↦ elim (Option-cases (request_row db j)) [
    | inl gone ↦ absurd (ground arith)
    | inr (x, at_j) ↦ elim (Result-cases (member_of db i x.user_id)) [
      | inr (e, failed) ↦ absurd (ground arith)
      | inl (m, there) ↦
          (project, x, m, at_i, at_j, eq_of_== x.project_id i (ground arith), there, ground arith)
    ]
  ]
]

pub approve-IsRostered :
    (db : Db) (user : User) (i j : ℕ) (role : Role) (now : ℕ) (db' : Db)
    → approve_join_request db user i j role now ≡ ok db'
    → IsRostered db
    → IsRostered db'
approve-IsRostered db user i j role now db' h r =
    let (project, x, m, at_i, at_j, of_i, there, made) =
      approve_checks db user i j role now db' h in
    subst IsRostered (sym made) (
      decide-IsRostered _ j approved now (
        grant-IsRostered db i x.user_id role m project there at_i
          (λ p at. r.outsiders j x p at_j (subst (λ k. project_row db k ≡ some p) (sym of_i) at))
          r))

pub reject-IsRostered :
    (db : Db) (user : User) (i j now : ℕ) (db' : Db)
    → reject_join_request db user i j now ≡ ok db'
    → IsRostered db
    → IsRostered db'
unfolding reject_join_request
reject-IsRostered db user i j now db' h r =
    subst IsRostered (ground arith) (decide-IsRostered db j rejected now r)

add_checks :
    (db : Db) (user : User) (i : ℕ) (by_id : Option ℕ) (name : String) (project : Project)
    (u : User)
    → may_add db user i by_id name ≡ ok (project, u)
    → (project_row db i ≡ some project) × (u.id == project.owner_id ≡ false)
unfolding may_add get_owned_project
add_checks db user i by_id name project u h = elim (Result-cases (find_user db by_id name)) [
  | inr (e, failed) ↦ absurd (ground arith)
  | inl (c, found_it) ↦ (ground arith, ground arith)
]

pub add_project_member-IsRostered :
    (db : Db) (user : User) (i : ℕ) (by_id : Option ℕ) (name : String) (role : Role) (db' : Db)
    → add_project_member db user i by_id name role ≡ ok db'
    → IsRostered db
    → IsRostered db'
unfolding add_project_member
add_project_member-IsRostered db user i by_id name role db' h r =
    elim (Result-cases (may_add db user i by_id name)) [
      | inr (e, refused) ↦ absurd (ground arith)
      | inl ((project, u), checked) ↦ elim (Result-cases (member_of db i u.id)) [
        | inr (e, failed) ↦ absurd (ground arith)
        | inl (m, there) ↦
            let (at_i, other) = add_checks db user i by_id name project u checked in
            subst IsRostered (ground arith)
              (grant-IsRostered db i u.id role m project there at_i (λ p at. ground arith) r)
      ]
    ]

pub remove-IsRostered :
    (db : Db) (user : User) (i u : ℕ) (db' : Db)
    → remove_project_member db user i u ≡ ok db'
    → IsRostered db
    → IsRostered db'
unfolding remove_project_member may_remove get_owned_project
remove-IsRostered db user i u db' h r =
    subst IsRostered (ground arith) (delete_member-IsRostered db i u (λ p at. ground arith) r)

pub update-IsRostered :
    (db : Db) (user : User) (i u : ℕ) (role : Role) (db' : Db)
    → update_project_member_role db user i u role ≡ ok db'
    → IsRostered db
    → IsRostered db'
unfolding update_project_member_role may_update get_owned_project
update-IsRostered db user i u role db' h r =
    subst IsRostered (ground arith) (set_role-keeps db i u role (λ p at. ground arith) r)

none_among : (p u : ℕ) (ms : List Member) → any (is_member p u) ms ≡ false → roles p u ms ≡ []
none_among p u [] h = refl
none_among p u (m ∷ ms) h = ground (arith, none_among p u ms)

accept_checks :
    (db : Db) (user : User) (token : String) (now : ℕ) (inv : Invitation) (project : Project)
    → may_accept db user token now ≡ ok (inv, project)
    → (project_row db inv.project_id ≡ some project)
      × (project.owner_id == user.id ≡ false)
      × (any (is_member project.id user.id) db.members ≡ false)
unfolding may_accept
accept_checks db user token now inv project h =
    elim (Result-cases
      (one_or_none (where_ (λ (i : Invitation). str_eq i.token token) db.invitations))) [
        | inr (e, failed) ↦ absurd (ground arith)
        | inl (none, missing) ↦ absurd (ground arith)
        | inl (some i, there) ↦ elim (Option-cases (project_row db i.project_id)) [
          | inl gone ↦ absurd (ground arith)
          | inr (p, at_p) ↦ (ground arith, ground arith, ground arith)
        ]
      ]

pub accept-IsRostered :
    (db : Db) (user : User) (token : String) (now : ℕ) (db' : Db)
    → accept_invitation db user token now ≡ ok db'
    → IsRostered db
    → IsRostered db'
unfolding accept_invitation
accept-IsRostered db user token now db' h r = elim (Result-cases (may_accept db user token now)) [
  | inr (e, refused) ↦ absurd (ground arith)
  | inl ((inv, project), checked) ↦
      let (at_i, not_owner, out) = accept_checks db user token now inv project checked in
      let at_id : project_row db project.id ≡ some project =
        subst (λ k. project_row db k ≡ some project)
          (sym (key-row (λ (p : Project). p.id) inv.project_id db.projects project at_i)) at_i in
      let other : IsOther db project.id user.id =
        λ p at. ground (arith, ==-sym user.id p.owner_id) in
      let kept =
        add_member-IsRostered db project.id user.id inv.role project at_id other
          (none_among project.id user.id db.members out) r in
      subst IsRostered (ground arith) (uninvited-IsRostered inv.id kept)
]

-- A new project, whose id nothing refers to yet.
abbrev new_project : Db → User → String → Project
new_project db user name = record { id = db.next_id; owner_id = user.id; name = name }

project-new :
    (db : Db) (user : User) (name : String) (j : ℕ) (p : Project)
    → IsRostered db
    → row (λ (x : Project). x.id) j (db.projects ++ new_project db user name ∷ []) ≡ some p
    → (project_row db j ≡ some p) × (db.next_id == j ≡ false)
      ⊎ (db.next_id ≡ j) × (p.owner_id ≡ user.id) × (project_row db j ≡ none)
project-new db user name j p r h =
    let after = row-append (λ (x : Project). x.id) j db.projects (new_project db user name) in
    elim (Bool-cases (db.next_id == j)) [
      | inr other ↦ inl (ground (arith, after), other)
      | inl same ↦
          let is_j : db.next_id ≡ j = eq_of_== _ _ same in
          let new : project_row db j ≡ none = r.fresh_projects j (omega arith) in
          inr (is_j, ground (arith, after), new)
    ]

abbrev starter : Db → File
starter db = record {
  id = db.next_id + 1;
  project_id = db.next_id;
  folder_id = none;
  path = "main.py";
  language = "python";
}

abbrev opened : Db → User → String → Db
opened db user name = record db {
  next_id = db.next_id + 2;
  projects = db.projects ++ new_project db user name ∷ [];
  files = db.files ++ starter db ∷ [];
}

abbrev created : Db → User → String → Db
created db user name = add_member db.next_id user.id owner (opened db user name)

created-IsRostered :
    (db : Db) (user : User) (name : String) → IsRostered db → IsRostered (created db user name)
created-IsRostered db user name r = record {
  single = λ q v.
      ground (
        arith,
        new_roles q v,
        r.single q v,
        none_there q v,
        length-append (roles q v db.members) [],
      );
  owned = λ q p at. elim (project-new db user name q p r at) [
    | inl (old, apart) ↦ ground (arith, new_roles q p.owner_id, r.owned q p old, apart)
    | inr (is_q, by, new) ↦ ground (
      arith,
      new_roles q p.owner_id,
      none_there q p.owner_id,
      is_q,
      by,
      ==-refl q,
      ==-refl user.id,
    )
  ];
  outsiders = λ j x p at_j at_p. elim (project-new db user name x.project_id p r at_p) [
    | inl (old, apart) ↦ r.outsiders j x p at_j old
    | inr (is_q, by, new) ↦ absurd (r.fresh_requests j x at_j new)
  ];
  fresh_projects = λ q new. elim (Option-cases (project_row (created db user name) q)) [
    | inl gone ↦ gone
    | inr (p, at) ↦ elim (project-new db user name q p r at) [
      | inl (old, apart) ↦ absurd (ground (arith, r.fresh_projects q))
      | inr (is_q, by, _) ↦ absurd (omega arith)
    ]
  ];
  fresh_members = λ q v new. ground (arith, new_roles q v, r.fresh_members q v);
  fresh_requests = λ j x at_j new. r.fresh_requests j x at_j (still_none x.project_id new);
}
  where
    new_roles :
        (q v : ℕ)
        → roles q v (created db user name).members
          ≡ roles q v db.members ++ (if is_pair db.next_id user.id q v then owner ∷ [] else [])
    new_roles q v =
        roles-append q v db.members
          (record { id = db.next_id + 2; project_id = db.next_id; user_id = user.id; role = owner })

    none_there : (q v : ℕ) → db.next_id == q ≡ true → roles q v db.members ≡ []
    none_there q v same =
        let is_q : db.next_id ≡ q = eq_of_== _ _ same in r.fresh_members q v (omega arith)

    still_none : (q : ℕ) → project_row (created db user name) q ≡ none → project_row db q ≡ none
    still_none q new =
        ground (arith, row-append (λ (x : Project). x.id) q db.projects (new_project db user name))

pub create_project-IsRostered :
    (db : Db) (user : User) (name : String) (db' : Db)
    → create_project db user name ≡ ok db'
    → IsRostered db
    → IsRostered db'
unfolding create_project
create_project-IsRostered db user name db' h r =
    subst IsRostered (ground arith) (created-IsRostered db user name r)
