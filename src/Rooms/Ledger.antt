-- ===== src/Rooms/Ledger.antt =====
-- The credited lines of a room balance with its text, whoever edits it and whenever a window closes.
use cs455_project.Prelude.{ℕ, ◌+◌, List, [], ◌++◌, ◌≡◌, where_, arith}
use cs455_project.Changes.{Differ}
use cs455_project.Changes.Lines.{IsDiffer}
use cs455_project.Changes.Totals.{added_of, removed_of}
use cs455_project.Crdt.{Pycrdt}
use cs455_project.Crdt.Laws.{IsPycrdt}
use cs455_project.Rooms.{Room, Credits, is_credited, take_pending, close_window, apply_edit}
use cs455_project.Rooms.Balance.{
  added-append, added-where_, lines, text_before-close_window, IsSettled, close_window-IsSettled,
  apply_edit-IsSettled,
}

module _ {D : Type 0} (lib : Pycrdt D) (differ : Differ) where
  -- A room and all the credits that were taken out of it.
  pub record Ledger : Type 0 where
    pub room : Room D
    pub taken : Credits

  -- What happens to a room between its hydration and its removal: an edit of anyone, the end of a
  -- window, or a checkpoint that writes the credits.
  pub data Step : Ledger → Ledger → Type 0 where
    edited :
        {l : Ledger} (now user_id : ℕ) (update : List ℕ)
        → Step l (record l { room = (apply_edit lib differ now user_id update l.room).1 })
    closed : {l : Ledger} → Step l (record l { room = close_window lib differ l.room })
    collected :
        {l : Ledger}
        → Step l
            (record { room = (take_pending l.room).1; taken = l.taken ++ (take_pending l.room).0 })

  pub data Steps : Ledger → Ledger → Type 0 where
    done : {l : Ledger} → Steps l l
    and_then : {k l m : Ledger} → Steps k l → Step l m → Steps k m

  abbrev pub IsKept : ℕ → Ledger → Type 0
  IsKept start l = IsSettled lib differ start (added_of l.taken) (removed_of l.taken) l.room

  Step-IsKept :
      (start : ℕ) (l m : Ledger)
      → IsPycrdt lib
      → IsDiffer differ
      → IsKept start l
      → Step l m
      → IsKept start m
  unfolding take_pending
  Step-IsKept start l m laws differs h (edited now user_id update) =
      apply_edit-IsSettled lib differ start (added_of l.taken) (removed_of l.taken) now user_id
        update l.room laws differs h
  Step-IsKept start l m laws differs h closed =
      close_window-IsSettled lib differ start (added_of l.taken) (removed_of l.taken) l.room differs
        h
  Step-IsKept start l m laws differs (typed, balance) collected =
      let items = l.room.pending in
      let written = where_ is_credited items in
      (typed, ground (arith, balance, added-append l.taken written, added-where_ items))

  Steps-IsKept :
      (start : ℕ) (l m : Ledger)
      → IsPycrdt lib
      → IsDiffer differ
      → IsKept start l
      → Steps l m
      → IsKept start m
  Steps-IsKept start l m laws differs h done = h
  Steps-IsKept start l m laws differs h (and_then {l = k} before step) =
      Step-IsKept start k m laws differs (Steps-IsKept start l k laws differs h before) step

  -- With a `pycrdt` and a `difflib` as documented: from a room without an open window and without
  -- credits, after any edits, ends of windows and checkpoints and one more end of a window, the lines of
  -- the text at the start with all the credited added lines, written or pending, are as many as the
  -- lines of the present text with all the credited removed lines.
  pub credited_lines_balance :
      (room : Room D) (l : Ledger)
      → IsPycrdt lib
      → IsDiffer differ
      → room.window_authors ≡ []
      → room.pending ≡ []
      → Steps (record { room = room; taken = [] }) l
      → let ended = close_window lib differ l.room in
        lines (lib.text room.doc) + added_of (l.taken ++ ended.pending)
        ≡ lines (lib.text ended.doc) + removed_of (l.taken ++ ended.pending)
  credited_lines_balance room l laws differs idle empty steps =
      let start = lines (lib.text room.doc) in
      let begun : IsKept start (record { room = room; taken = [] }) = ground (arith, idle, empty) in
      let (typed, balance) =
        close_window-IsSettled lib differ start (added_of l.taken) (removed_of l.taken) l.room
          differs
          (Steps-IsKept start (record { room = room; taken = [] }) l laws differs begun steps) in
      let ended = close_window lib differ l.room in
      ground (
        arith,
        balance,
        added-append l.taken ended.pending,
        text_before-close_window lib differ l.room,
      )
