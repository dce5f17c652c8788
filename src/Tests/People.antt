-- ===== src/Tests/People.antt =====
-- The theorems on members and cursors at concrete inputs.
use cs455_project.Prelude.{
  ℕ, ◌≡◌, ◌≤◌, ◌⊎◌, refl, true, false, none, some, List, [], ◌∷◌, String, ok, inl, inr, All, arith,
}
use cs455_project.Roles.{editor, owner, role_rank}
use cs455_project.Database.{Db, Member, get_member}
use cs455_project.Members.{create_project, create_invitation, may_invite}
use cs455_project.Members.Roster.{IsRostered}
use cs455_project.Members.Access.{
  here, next, creates, owner_stays, invite_within_rank, Step-IsRostered,
}
use cs455_project.Awareness.{Json, Entry, Peer, accept, peer_of}
use cs455_project.Awareness.Mirror.{accept-others, accept-IsStamped, IsStamped}
use cs455_project.Tests.{base, alice, bob}

abbrev nobody : Db
nobody = record base { projects = []; members = [] }

nobody-IsRostered : IsRostered nobody
nobody-IsRostered = record {
  single = λ p u. omega arith;
  owned = λ i p h. absurd (ground arith);
  outsiders = λ i r p h at. absurd (ground arith);
  fresh_projects = λ i new. refl;
  fresh_members = λ i u new. refl;
  fresh_requests = λ i r h. absurd (ground arith);
}

abbrev alices : Db
alices = record nobody {
  next_id = 13;
  projects = record { id = 10; owner_id = 1; name = "demo" } ∷ [];
  members = record { id = 12; project_id = 10; user_id = 1; role = owner } ∷ [];
  files =
      record { id = 8; project_id = 7; folder_id = none; path = "main.py"; language = "python" }
      ∷ record { id = 11; project_id = 10; folder_id = none; path = "main.py"; language = "python" }
      ∷ [];
}

Step-IsRostered_example : IsRostered alices
unfolding create_project
Step-IsRostered_example = Step-IsRostered nobody-IsRostered (creates alice "demo" refl)

owner_stays_example : (m : Member) × (get_member alices 10 1 ≡ ok m) × (m.role ≡ owner)
unfolding create_project
owner_stays_example =
    owner_stays nobody alices 10 (record { id = 10; owner_id = 1; name = "demo" }) nobody-IsRostered
      (next here (creates alice "demo" refl)) refl

-- Bob is a debugger of alice's project, and invites an editor.
abbrev with_invitation : Db
with_invitation = record base {
  next_id = 11;
  invitations =
      record { id = 10; project_id = 7; token = "t"; role = editor; expires_at = 604800100000 }
      ∷ [];
}

invite_within_rank_example :
    (alice.id ≡ bob.id)
    ⊎ ((m : Member) × (get_member base 7 2 ≡ ok m)
        × (role_rank editor ≤ role_rank m.role)
        × (role_rank editor ≤ role_rank m.role))
unfolding create_invitation may_invite
invite_within_rank_example =
    invite_within_rank base bob 7 editor "t" 100000 with_invitation
      (record { id = 7; owner_id = 1; name = "demo" }) refl refl

-- A JSON value is a number or a text here.
abbrev Value : Type 0
Value = ℕ ⊎ String

abbrev json : Json Value
json = record { number = inl; text = inr; is_color = λ v. elim v [ inl n ↦ false | inr t ↦ true ] }

abbrev alices_cursor : Peer Value
alices_cursor = record { client_id = 5; clock = 3; state = []; ws = 1; user_id = 1 }

-- Bob's connection says that it is alice, with a client id of its own and with hers.
abbrev forged : List (Entry Value)
forged =
    record { client_id = 5; clock = 9; state = none }
    ∷ record {
      client_id = 6;
      clock = 1;
      state = some (
          record { key = "user_id"; value = inl 1 }
          ∷ record { key = "color"; value = inr "#aabbcc" }
          ∷ []);
    }
    ∷ []

accept-others_example :
    peer_of json 5 (accept json 2 2 "bob" forged (alices_cursor ∷ [])).peers ≡ some alices_cursor
accept-others_example =
    accept-others json 2 2 "bob" forged (alices_cursor ∷ []) 5 alices_cursor refl refl

accept-IsStamped_example :
    All (IsStamped json 2 2 "bob") (accept json 2 2 "bob" forged (alices_cursor ∷ [])).relayed
accept-IsStamped_example = accept-IsStamped json 2 2 "bob" forged (alices_cursor ∷ [])
