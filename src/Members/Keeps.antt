-- ===== src/Members/Keeps.antt =====
-- Each write of the membership handlers keeps the roster.
use mathlib.Core.Path.{subst}
use cs455_project.Prelude.{
  sym, ℕ, ◌≤◌, ◌≡◌, refl, true, false, Option, none, some, List, [], ◌∷◌, map, ◌==◌, where_, arith,
  length, ok, one_or_none, Option-cases, Bool-cases, inl, inr, row-append, row-modify, eq_of_==,
  ◌⊎◌, ap, ◌≢◌, length-append,
}
use cs455_project.Roles.{Role}
use cs455_project.Database.{
  Db, Project, Member, JoinRequest, JoinRequestStatus, pending, is_member, project_row, member_of,
}
use cs455_project.Members.{
  request_row, add_member, set_role, delete_member, grant, decide, add_request,
}
use cs455_project.Members.Roster.{
  IsRostered, roles, is_pair, roles-append, roles-set_role, roles-delete_member,
}

pub none-roles :
    (p u : ℕ) (ms : List Member)
    → one_or_none (where_ (is_member p u) ms) ≡ ok none
    → roles p u ms ≡ []
none-roles p u ms h = go (where_ (is_member p u) ms) h
  where
    go :
        (found : List Member)
        → one_or_none found ≡ ok none
        → map (λ (m : Member). m.role) found ≡ []
    go [] e = refl
    go (m ∷ []) e = ground arith
    go (m ∷ n ∷ rest) e = ground arith

map-length : (role : Role) (rs : List Role) → length (map (λ (_ : Role). role) rs) ≡ length rs
map-length role [] = refl
map-length role (r ∷ rs) = ground (arith, map-length role rs)

-- The user is not the owner of the project.
abbrev pub IsOther : Db → ℕ → ℕ → Type 0
IsOther db p u =
    (project : Project) → project_row db p ≡ some project → u == project.owner_id ≡ false

not_pair :
    (db : Db) (p u q : ℕ) (project : Project)
    → IsOther db p u
    → project_row db q ≡ some project
    → is_pair p u q project.owner_id ≡ false
not_pair db p u q project other at = elim (Bool-cases (p == q)) [
  | inr apart ↦ ground arith
  | inl same ↦ ground (
    arith,
    other project (subst (λ i. project_row db i ≡ some project) (sym (eq_of_== p q same)) at),
  )
]

abbrev added : ℕ → ℕ → Role → Db → Member
added p u role db = record { id = db.next_id; project_id = p; user_id = u; role = role }

-- A role that was set, or a row that was added, in the project.
set_role-IsRostered :
    (db : Db) (p u : ℕ) (role : Role)
    → IsOther db p u
    → IsRostered db
    → IsRostered (set_role p u role db)
set_role-IsRostered db p u role other r = record {
  single = λ q v.
      ground (
        arith,
        roles-set_role p u role db q v,
        r.single q v,
        map-length role (roles q v db.members),
      );
  owned = λ q project at. ground (
    arith,
    roles-set_role p u role db q project.owner_id,
    not_pair db p u q project other at,
    r.owned q project at,
  );
  outsiders = r.outsiders;
  fresh_projects = r.fresh_projects;
  fresh_members =
      λ q v new. ground (arith, roles-set_role p u role db q v, r.fresh_members q v new);
  fresh_requests = r.fresh_requests;
}

pub add_member-IsRostered :
    (db : Db) (p u : ℕ) (role : Role) (project : Project)
    → project_row db p ≡ some project
    → IsOther db p u
    → roles p u db.members ≡ []
    → IsRostered db
    → IsRostered (add_member p u role db)
add_member-IsRostered db p u role project at_p other out r = record {
  single = λ q v. ground (
    arith,
    roles-append q v db.members (added p u role db),
    r.single q v,
    gone q v,
    length-append (roles q v db.members) (role ∷ []),
    length-append (roles q v db.members) [],
  );
  owned = λ q x at. ground (
    arith,
    roles-append q x.owner_id db.members (added p u role db),
    not_pair db p u q x other at,
    r.owned q x at,
  );
  outsiders = r.outsiders;
  fresh_projects = λ q new. r.fresh_projects q (omega arith);
  fresh_members = λ q v new.
      ground (arith, roles-append q v db.members (added p u role db), r.fresh_members q v, old q);
  fresh_requests = r.fresh_requests;
}
  where
    gone : (q v : ℕ) → is_pair p u q v ≡ true → roles q v db.members ≡ []
    gone q v same =
        let is_p : p ≡ q = eq_of_== p q (ground arith) in
        let is_u : u ≡ v = eq_of_== u v (ground arith) in
        subst (λ a. roles a v db.members ≡ []) is_p
          (subst (λ b. roles p b db.members ≡ []) is_u out)

    old : (q : ℕ) → db.next_id ≤ q → p == q ≡ false
    old q new = elim (Bool-cases (p == q)) [
      | inr apart ↦ apart
      | inl same ↦
          absurd
            (ground (arith, ap (λ i. project_row db i) (eq_of_== p q same), r.fresh_projects q new))
    ]

-- The role that an upsert gives is the role of the one row, whatever was there before.
pub grant-IsRostered :
    (db : Db) (p u : ℕ) (role : Role) (m : Option Member) (project : Project)
    → member_of db p u ≡ ok m
    → project_row db p ≡ some project
    → IsOther db p u
    → IsRostered db
    → IsRostered (grant p u role m db)
grant-IsRostered db p u role none project there at_p other r =
    add_member-IsRostered db p u role project at_p other (none-roles p u db.members there) r
grant-IsRostered db p u role (some m) project there at_p other r =
    set_role-IsRostered db p u role other r

pub set_role-keeps :
    (db : Db) (p u : ℕ) (role : Role)
    → IsOther db p u
    → IsRostered db
    → IsRostered (set_role p u role db)
set_role-keeps = set_role-IsRostered

pub delete_member-IsRostered :
    (db : Db) (p u : ℕ) → IsOther db p u → IsRostered db → IsRostered (delete_member p u db)
delete_member-IsRostered db p u other r = record {
  single = λ q v. ground (arith, roles-delete_member p u db q v, r.single q v);
  owned = λ q x at. ground (
    arith,
    roles-delete_member p u db q x.owner_id,
    not_pair db p u q x other at,
    r.owned q x at,
  );
  outsiders = r.outsiders;
  fresh_projects = r.fresh_projects;
  fresh_members =
      λ q v new. ground (arith, roles-delete_member p u db q v, r.fresh_members q v new);
  fresh_requests = r.fresh_requests;
}

request-decide :
    (db : Db) (i : ℕ) (status : JoinRequestStatus) (now j : ℕ) (x : JoinRequest)
    → request_row (decide i status now db) j ≡ some x
    → (old : JoinRequest) × (request_row db j ≡ some old)
      × (x.project_id ≡ old.project_id)
      × (x.user_id ≡ old.user_id)
request-decide db i status now j x h =
    let after =
      row-modify (λ (r : JoinRequest). r.id) i j
        (λ (r : JoinRequest). record r { status = status; decided_at = some now }) db.join_requests
        (λ r. refl) in
    elim (Option-cases (request_row db j)) [
      | inl gone ↦ absurd (ground (arith, after))
      | inr (old, there) ↦ (old, there, ground (arith, after), ground (arith, after))
    ]

pub decide-IsRostered :
    (db : Db) (i : ℕ) (status : JoinRequestStatus) (now : ℕ)
    → IsRostered db
    → IsRostered (decide i status now db)
decide-IsRostered db i status now r = record {
  single = r.single;
  owned = r.owned;
  outsiders = λ j x project h at.
      let (old, there, p_same, u_same) = request-decide db i status now j x h in
      rw u_same
        (r.outsiders j old project there (subst (λ k. project_row db k ≡ some project) p_same at));
  fresh_projects = r.fresh_projects;
  fresh_members = r.fresh_members;
  fresh_requests = λ j x h.
      let (old, there, p_same, u_same) = request-decide db i status now j x h in
      subst (λ k. project_row db k ≢ none) (sym p_same) (r.fresh_requests j old there);
}

request-add_request :
    (db : Db) (p u j : ℕ) (x : JoinRequest)
    → request_row (add_request p u db) j ≡ some x
    → (request_row db j ≡ some x) ⊎ (x.project_id ≡ p) × (x.user_id ≡ u)
request-add_request db p u j x h =
    let new : JoinRequest = record {
      id = db.next_id;
      project_id = p;
      user_id = u;
      status = pending;
      decided_at = none;
    } in
    let after = row-append (λ (r : JoinRequest). r.id) j db.join_requests new in
    elim (Option-cases (request_row db j)) [
      | inl none_yet ↦ inr (ground (arith, after), ground (arith, after))
      | inr (old, there) ↦ inl (ground (arith, after))
    ]

pub add_request-IsRostered :
    (db : Db) (p u : ℕ) (project : Project)
    → project_row db p ≡ some project
    → u == project.owner_id ≡ false
    → IsRostered db
    → IsRostered (add_request p u db)
add_request-IsRostered db p u project at_p other r = record {
  single = r.single;
  owned = r.owned;
  outsiders = λ j x q h at. elim (request-add_request db p u j x h) [
    | inl old ↦ r.outsiders j x q old at
    | inr (of_p, by_u) ↦
        let at_q : project_row db p ≡ some q = subst (λ k. project_row db k ≡ some q) of_p at in
        rw by_u (ground (arith, at_q))
  ];
  fresh_projects = λ q new. r.fresh_projects q (omega arith);
  fresh_members = λ q v new. r.fresh_members q v (omega arith);
  fresh_requests = λ j x h. elim (request-add_request db p u j x h) [
    | inl old ↦ r.fresh_requests j x old
    | inr (of_p, by_u) ↦
        subst (λ k. project_row db k ≢ none) (sym of_p) (λ gone. absurd (ground arith))
  ];
}
