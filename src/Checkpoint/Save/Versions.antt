-- ===== src/Checkpoint/Save/Versions.antt =====
-- What `_checkpoint_room` and `save_room` leave in the table of versions.
use mathlib.Core.Option
use cs455_project.Prelude.{
  ℕ, ◌+◌, ◌≤◌, ◌<◌, Bool, true, false, not, Option, none, some, List, [], ◌∷◌, ◌≡◌, refl, sym, ap,
  ◌∙◌, inl, inr, Bool-cases, Option-cases, ok, arith,
}
use cs455_project.Changes.{Differ, same_text}
use cs455_project.Changes.Lines.{eq_of_same_text}
use cs455_project.Crdt.{Pycrdt, new_doc, doc_to_bytes, doc_from_bytes}
use cs455_project.Crdt.Laws.{IsPycrdt}
use cs455_project.Documents.{DocumentVersion, Documents, latest_version}
use cs455_project.Documents.Latest.{latest-append}
use cs455_project.Rooms.{Room, is_empty}
use cs455_project.Rooms.Manager.{Manager, fresh_room, get_room, open_room}
use cs455_project.Rooms.Manager.Opening.{open_room-absent, hydrate-latest}
use cs455_project.Checkpoint.Save.{
  marked, mark_saved, mark_latest, write_version, checkpoint_room, save_room,
}

latest-mark_saved :
    (file_id i user_id : ℕ) (vs : List DocumentVersion)
    → latest_version file_id (mark_saved i user_id vs)
      ≡ Option.map (marked i user_id) (latest_version file_id vs)
latest-mark_saved file_id i user_id [] = refl
latest-mark_saved file_id i user_id (v ∷ vs) = elim (Option-cases (latest_version file_id vs)) [
  | inl e ↦ ground (arith, e, latest-mark_saved file_id i user_id vs)
  | inr (w, e) ↦ ground (arith, e, latest-mark_saved file_id i user_id vs)
]

marked-keeps :
    (i user_id : ℕ) (v : DocumentVersion)
    → ((marked i user_id v).snapshot_bytes ≡ v.snapshot_bytes)
      × ((marked i user_id v).version_number ≡ v.version_number)
marked-keeps i user_id v = ground arith

latest-mark_latest :
    (file_id : ℕ) (saved_by : Option ℕ) (latest : DocumentVersion) (docs : Documents)
    → latest_version file_id docs.versions ≡ some latest
    → (v : DocumentVersion) × (latest_version file_id (mark_latest saved_by latest docs).versions
        ≡ some v)
      × (v.snapshot_bytes ≡ latest.snapshot_bytes)
      × (v.version_number ≡ latest.version_number)
latest-mark_latest file_id none latest docs h = (latest, h, refl, refl)
latest-mark_latest file_id (some user_id) latest docs h = elim (Option-cases latest.saved_by) [
  | inl e ↦
      let (same_bytes, same_number) = marked-keeps latest.id user_id latest in
      rw e (
        marked latest.id user_id latest,
        latest-mark_saved file_id latest.id user_id docs.versions
            ∙ ap (Option.map (marked latest.id user_id)) h,
        same_bytes,
        same_number,
      )
  | inr (someone, e) ↦ rw e (latest, h, refl, refl)
]

-- After `write_version` the file's latest version has these bytes and the version number, which
-- is not below the number before, and above it if a row was made, which is so if the bytes differ.
pub record IsStored (file_id : ℕ) (payload : List ℕ) (version : Option ℕ) (created : Bool)
    (before after : List DocumentVersion) : Type 0 where
  pub stored : DocumentVersion
  pub is_latest : latest_version file_id after ≡ some stored
  pub bytes : stored.snapshot_bytes ≡ payload
  pub number : version ≡ some stored.version_number
  pub grows :
      (v : DocumentVersion)
      → latest_version file_id before ≡ some v
      → (v.version_number ≤ stored.version_number)
        × (created ≡ true → v.version_number < stored.version_number)
  pub made :
      created
      ≡ not (elim (latest_version file_id before) [
        | none ↦ false
        | some v ↦ same_text v.snapshot_bytes payload
      ])

abbrev row_of : (i file_id number : ℕ) → List ℕ → ℕ → Option ℕ → DocumentVersion
row_of i file_id number payload now saved_by = record {
  id = i;
  file_id = file_id;
  version_number = number;
  snapshot_bytes = payload;
  created_at = now;
  saved_by = saved_by;
}

write_version-IsStored :
    (now file_id : ℕ) (payload : List ℕ) (saved_by : Option ℕ) (docs : Documents)
    → is_empty payload ≡ false
    → let (result, written) =
        write_version now file_id payload saved_by (latest_version file_id docs.versions) docs in
      IsStored file_id payload result.version result.created docs.versions written.versions
write_version-IsStored now file_id payload saved_by docs full =
    elim (Option-cases (latest_version file_id docs.versions)) [
      | inl e ↦
          let new : DocumentVersion = row_of docs.next_id file_id 1 payload now saved_by in
          rw (e, full)
            (record {
              stored = new;
              is_latest = latest-append file_id docs.versions new refl (rw e tt);
              bytes = refl;
              number = refl;
              grows = λ v h. ground (arith, e, h);
              made = rw e refl;
            })
      | inr (w, e) ↦ elim (Bool-cases (same_text w.snapshot_bytes payload)) [
        | inl f ↦
            let (v, latest, same_bytes, same_number) =
              latest-mark_latest file_id saved_by w docs e in
            rw (e, full, f)
              (record {
                stored = v;
                is_latest = latest;
                bytes = same_bytes ∙ eq_of_same_text w.snapshot_bytes payload f;
                number = ap some (sym same_number);
                grows = λ v h. ground (arith, e, h, same_number);
                made = rw (e, f) refl;
              })
        | inr f ↦
            let new : DocumentVersion =
              row_of docs.next_id file_id (w.version_number + 1) payload now saved_by in
            rw (e, full, f)
              (record {
                stored = new;
                is_latest = latest-append file_id docs.versions new refl (rw e (omega arith));
                bytes = refl;
                number = refl;
                grows = λ v h. ground (arith, e, h);
                made = rw (e, f) refl;
              })
      ]
    ]

module _ {D : Type 0} (lib : Pycrdt D) (differ : Differ) where
  checkpoint_room-IsStored :
      (now : ℕ) (room : Room D) (close : Bool) (saved_by : Option ℕ) (docs : Documents)
      → is_empty (doc_to_bytes lib room.doc) ≡ false
      → let (result, after, written) = checkpoint_room lib differ now room close saved_by docs in
        IsStored room.file_id
          (doc_to_bytes lib room.doc)
          result.version
          result.created
          docs.versions
          written.versions
  unfolding checkpoint_room
  checkpoint_room-IsStored now room true saved_by docs full =
      write_version-IsStored now room.file_id (doc_to_bytes lib room.doc) saved_by docs full
  checkpoint_room-IsStored now room false saved_by docs full =
      write_version-IsStored now room.file_id (doc_to_bytes lib room.doc) saved_by docs full

  -- If `pycrdt` encodes the room's document as some bytes: after `save_room` the file's latest version
  -- has these bytes and the version number of the answer, which is not below the latest number
  -- before, and above it if a version was created; one is created if and only if there was none or the
  -- latest had other bytes.
  pub save_room-IsStored :
      (now : ℕ) (room : Room D) (user_id : Option ℕ) (docs : Documents) (m : Manager D)
      → is_empty (doc_to_bytes lib room.doc) ≡ false
      → let (result, written, m') = save_room lib differ now room user_id docs m in
        IsStored room.file_id
          (doc_to_bytes lib room.doc)
          result.version
          result.created
          docs.versions
          written.versions
  unfolding save_room
  save_room-IsStored now room user_id docs m full =
      checkpoint_room-IsStored now room true user_id docs full

  -- With a `pycrdt` as documented, which encodes the room's document as some bytes: after `save_room`, a server that
  -- has no room for the file opens one with the text that was saved.
  pub open_room-save_room :
      (now later : ℕ) (room : Room D) (user_id : Option ℕ) (docs : Documents)
      (m restarted : Manager D)
      → IsPycrdt lib
      → is_empty (doc_to_bytes lib room.doc) ≡ false
      → get_room room.project_id room.file_id restarted ≡ none
      → let (result, written, m') = save_room lib differ now room user_id docs m in
        (opened : Room D) × ((open_room lib later room.project_id room.file_id written.versions
            restarted).0
          ≡ ok opened)
        × (lib.text opened.doc ≡ lib.text room.doc)
  open_room-save_room now later room user_id docs m restarted laws full absent =
      let h = save_room-IsStored now room user_id docs m full in
      let (copy, copied, same) = laws.copies room.doc in
      let fresh = fresh_room later room.project_id room.file_id (new_doc lib []) in
      let versions = (save_room lib differ now room user_id docs m).1.versions in
      let loaded : doc_from_bytes lib h.stored.snapshot_bytes ≡ some copy =
        ap (doc_from_bytes lib) h.bytes ∙ copied in
      (
        record fresh { doc = copy; hydrated = true },
        open_room-absent lib later room.project_id room.file_id versions restarted absent
            ∙ hydrate-latest lib fresh h.stored copy versions refl h.is_latest loaded,
        same,
      )
