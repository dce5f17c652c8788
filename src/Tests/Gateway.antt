-- ===== src/Tests/Gateway.antt =====
-- The theorems on the sockets of a file, at two connections.
use cs455_project.Prelude.{true, false, ℕ, none, some, List, [], ◌∷◌, lookup, ◌≡◌, refl, arith}
use cs455_project.Roles.{editor, viewer}
use cs455_project.Awareness.{Json}
use cs455_project.Awareness.Wire.{Coder, object}
use cs455_project.Crdt.{apply_update_counting}
use cs455_project.Rooms.{binary, ack, apply_edit, close_window}
use cs455_project.Gateway.{
  update, ping, project_presence, awareness, Socket, handle_message, handle_messages,
}
use cs455_project.Gateway.Viewer.{Same, viewer_edits_nothing}
use cs455_project.Gateway.Delivered.{with_message, update_reaches_others}
use cs455_project.Tests.Texts.{toy, rewrite_lines}
use cs455_project.Tests.Rooms.{shared_room, manager}

abbrev numbers : Json ℕ
numbers = record { number = λ n. n; text = λ s. 0; is_color = λ v. false }

abbrev no_states : Coder ℕ
no_states = record { loads = λ bytes. none; dumps = λ state. [] }

abbrev socket : Socket (List ℕ) ℕ
socket = record { room = shared_room; peers = []; manager = manager; running = true }

viewer_edits_nothing_example : Same toy rewrite_lines numbers no_states 5 1 "alice" socket (
    handle_messages toy rewrite_lines numbers no_states 5 1 "alice" viewer
      ((10, update (some (0 ∷ 97 ∷ [])))
        ∷ (20, project_presence)
        ∷ (30, awareness (object []))
        ∷ (40, ping)
        ∷ [])
      socket)
viewer_edits_nothing_example =
    viewer_edits_nothing toy rewrite_lines numbers no_states 5 1 "alice"
      ((10, update (some (0 ∷ 97 ∷ [])))
        ∷ (20, project_presence)
        ∷ (30, awareness (object []))
        ∷ (40, ping)
        ∷ [])
      socket

is_taken : (apply_edit toy rewrite_lines 10 1 (0 ∷ 97 ∷ []) shared_room).0 ≡ true
unfolding apply_edit apply_update_counting close_window
is_taken = refl

update_reaches_others_example :
    let after =
      (handle_message toy rewrite_lines numbers no_states 5 1 "alice" editor 10
        (update (some (0 ∷ 97 ∷ [])))
        socket).manager.outboxes in
    (lookup 6 after ≡ with_message (binary (0 ∷ 97 ∷ [])) none)
    × (lookup 5 after ≡ with_message ack none)
update_reaches_others_example =
    update_reaches_others toy rewrite_lines numbers no_states 5 1 "alice" 10 editor (0 ∷ 97 ∷ []) 6
      socket (omega arith) is_taken (refl, (refl, tt)) refl refl
