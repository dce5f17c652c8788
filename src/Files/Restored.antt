-- ===== src/Files/Restored.antt =====
-- A restored version is what the file contains afterwards.
use cs455_project.Prelude.{ℕ, Bool, Option, some, List, ◌≡◌, ok}
use cs455_project.Changes.{Differ}
use cs455_project.Crdt.{Pycrdt}
use cs455_project.Documents.{DocumentVersion, Documents, latest_version}
use cs455_project.Rooms.Manager.{Manager}
use cs455_project.Files.Versions.{Content, content_of, Restored}

module _ {D : Type 0} (lib : Pycrdt D) (differ : Differ) where
  -- What the file contains is the text, with the version number of the answer.
  abbrev pub Contains : (file_id : ℕ) → List ℕ → Option ℕ → List DocumentVersion → Type 0
  Contains file_id text number versions =
      (content : Content) × (content_of lib (latest_version file_id versions) ≡ ok content)
      × (content.text ≡ text)
      × (number ≡ some content.version)

  -- The handler answered whether the text differed, and the file has the text.
  abbrev pub IsRestored : (file_id : ℕ) → List ℕ → (changed : Bool) → Restored lib differ → Type 0
  IsRestored file_id text changed after =
      (number : Option ℕ) × (after.answer ≡ ok (number, changed))
      × Contains file_id text number after.docs.versions
