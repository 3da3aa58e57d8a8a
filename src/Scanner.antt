-- ===== src/Scanner.antt =====
-- scripts/source/scanner.go: which part of a rollout file is new, and what events it holds. The walk over
-- the directories and the reading of a file are outside: each file that the walk meets is an argument,
-- with a function that reads the complete lines behind an offset.
pub mod Laws
use codex_auto_retry.Prelude.{
  ℕ, String, Bool, true, false, not, ◌&&◌, ◌||◌, List, [], ◌∷◌, ◌++◌, Option, none, some, ltb, eqb,
  is_some, ◌==◌, if◌then◌else◌, Time, Table, entry, assign, delete,
}
use codex_auto_retry.Model.{RelevantEvent, FileCursor}
use codex_auto_retry.Thread.{ScannedEvent}

-- The events of the complete lines behind an offset, and the offset behind the last such line; `none`
-- is an error of reading.
abbrev pub Reader : Type 0
Reader = ℕ → Option (List RelevantEvent × ℕ)

-- `key` is the path in lower case, as the cursors are kept; `thread_id` is `threadIDFromPath` of it.
pub record Rollout : Type 0 where
  pub key : String
  pub path : String
  pub thread_id : String
  pub codex_home : String
  pub size : ℕ
  pub read : Reader

-- What the paths of the cursors tell: `threadIDFromPath`, and `filePathBelongsToRoot` for a root's home.
pub record Paths : Type 0 where
  pub thread_of_path : String → String
  pub belongs_to : String → String → Bool

-- The loop body of `readAppendedEvents`: a notice that names another thread is skipped.
abbrev pub scanned_event : Rollout → Bool → RelevantEvent → ScannedEvent
scanned_event rollout mirrored event = record {
  thread_id = if event.thread_id == "" then rollout.thread_id else event.thread_id;
  event = event;
  codex_home = rollout.codex_home;
  rollout_path = rollout.path;
  mirrored = mirrored;
}

abbrev pub is_foreign_notice : Rollout → RelevantEvent → Bool
is_foreign_notice rollout event =
    event.kind == "subagent_recovery_notice" && not (event.parent_thread_id == rollout.thread_id)

unfoldable pub rollout_events : Rollout → Bool → List RelevantEvent → List ScannedEvent
rollout_events rollout mirrored [] = []
rollout_events rollout mirrored (event ∷ rest) =
    let more = rollout_events rollout mirrored rest in
    if is_foreign_notice rollout event then more else scanned_event rollout mirrored event ∷ more

abbrev pub seen_to : ℕ → Time → FileCursor
seen_to offset now = record { offset = offset; last_seen = now }

-- The file's new part, from its cursor on.
unfoldable pub scan_from :
    Table FileCursor → Rollout → Time → ℕ → Bool → Table FileCursor × List ScannedEvent
scan_from files rollout now offset mirrored =
    if ltb rollout.size offset
    then (assign files rollout.key (seen_to rollout.size now), [])
    else if eqb rollout.size offset
    then (assign files rollout.key (seen_to offset now), [])
    else elim (rollout.read offset) [
      | none ↦ (files, [])
      | some (events, next) ↦
          (assign files rollout.key (seen_to next now), rollout_events rollout mirrored events)
    ]

module _ (paths : Paths) where
  -- `threadKnownInFiles`
  unfoldable pub thread_known_in_files : Table FileCursor → String → Bool
  thread_known_in_files [] thread_id = false
  thread_known_in_files ((path, cursor) ∷ rest) thread_id =
      paths.thread_of_path path == thread_id || thread_known_in_files rest thread_id

  -- The cursor that the file had under another path of its root.
  unfoldable pub moved_from : Table FileCursor → Rollout → Option (String × FileCursor)
  moved_from [] rollout = none
  moved_from ((path, cursor) ∷ rest) rollout =
      let later = moved_from rest rollout in
      if path == rollout.key
        || not (paths.thread_of_path path == rollout.thread_id)
        || not (paths.belongs_to path rollout.codex_home)
      then later
      else some (path, cursor)

  -- `migrateFileCursor`: the cursors, and the one that was found.
  unfoldable pub migrate_file_cursor :
      Table FileCursor → Rollout → Table FileCursor × Option FileCursor
  migrate_file_cursor files rollout = elim (moved_from files rollout) [
    | none ↦ (files, none)
    | some (path, cursor) ↦ (delete (assign files rollout.key cursor) path, some cursor)
  ]

  -- The cursor of a file, and the cursors behind a possible move.
  unfoldable pub find_cursor :
      Table FileCursor → Rollout → Bool → Table FileCursor × Option FileCursor
  find_cursor files rollout baseline =
      if is_some (entry files rollout.key) || baseline
      then (files, entry files rollout.key)
      else migrate_file_cursor files rollout

  -- The body of `scanSessionDirectory` for a file with a thread's name.
  unfoldable pub scan_file :
      Table FileCursor → Bool → Rollout → Time → Bool → Table FileCursor × List ScannedEvent
  scan_file files initialized rollout now baseline =
      let (found, known) = find_cursor files rollout baseline in
      if baseline || (not (is_some known) && not initialized)
      then (assign found rollout.key (seen_to rollout.size now), [])
      else elim known [
        | some cursor ↦ scan_from found rollout now cursor.offset false
        | none ↦ scan_from found rollout now 0 (thread_known_in_files found rollout.thread_id)
      ]

  -- `scanSessions`, over the files in the order of the walk.
  unfoldable pub scan_sessions :
      Table FileCursor → Bool → List Rollout → Time → Bool → Table FileCursor × List ScannedEvent
  scan_sessions files initialized [] now baseline = (files, [])
  scan_sessions files initialized (rollout ∷ rest) now baseline =
      let (scanned, events) = scan_file files initialized rollout now baseline in
      let (done, more) = scan_sessions scanned initialized rest now baseline in
      (done, events ++ more)
