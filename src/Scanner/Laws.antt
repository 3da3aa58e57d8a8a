-- ===== src/Scanner/Laws.antt =====
-- What a scan of scripts/source/scanner.go reads, and what it never reads again.
use text.Mathlib.TextPositions.{eq_refl}
use codex_auto_retry.Prelude.{
  ℕ, ◌≡◌, refl, arith, String, Bool, true, false, List, [], ◌∷◌, none, some, ◌==◌, Time, Table,
  entry, entry-assign, entry-delete, assign, delete, Option-cases, inl, inr,
}
use codex_auto_retry.Model.{RelevantEvent, FileCursor}
use codex_auto_retry.Scanner.{
  Paths, Rollout, find_cursor, migrate_file_cursor, moved_from, scan_from, scan_file, seen_to,
  thread_known_in_files,
}

-- Every line of the file is complete, and the file can be read: what is read ends at the file's end.
abbrev pub ReadsToEnd : Rollout → Type 0
ReadsToEnd rollout =
    (offset : ℕ)
    → (events : List RelevantEvent) × (rollout.read offset ≡ some (events, rollout.size))

entry-assign_self :
    (files : Table FileCursor) (key : String) (cursor : FileCursor)
    → entry (assign files key cursor) key ≡ some cursor
entry-assign_self files key cursor = rw (entry-assign files key key cursor, eq_refl key)

scan_from-cursor :
    (files : Table FileCursor) (rollout : Rollout) (now : Time) (offset : ℕ) (mirrored : Bool)
    → ReadsToEnd rollout
    → entry (scan_from files rollout now offset mirrored).0 rollout.key
      ≡ some (seen_to rollout.size now)
unfolding scan_from
scan_from-cursor files rollout now offset mirrored ends =
    let (events, e) = ends offset in
    ground (
      arith,
      e,
      entry-assign_self files rollout.key (seen_to rollout.size now),
      entry-assign_self files rollout.key (seen_to offset now),
    )

module _ (paths : Paths) where
  scan_file-cursor :
      (files : Table FileCursor) (initialized : Bool) (rollout : Rollout) (now : Time)
      (baseline : Bool)
      → ReadsToEnd rollout
      → entry (scan_file paths files initialized rollout now baseline).0 rollout.key
        ≡ some (seen_to rollout.size now)
  unfolding scan_file
  scan_file-cursor files initialized rollout now baseline ends =
      let found = (find_cursor paths files rollout baseline).0 in
      let known = (find_cursor paths files rollout baseline).1 in
      elim (Option-cases known) [
        | inl e ↦ ground (
          arith,
          e,
          entry-assign_self found rollout.key (seen_to rollout.size now),
          scan_from-cursor found rollout now 0 (thread_known_in_files paths found rollout.thread_id)
              ends,
        )
        | inr (cursor, e) ↦ ground (
          arith,
          e,
          entry-assign_self found rollout.key (seen_to rollout.size now),
          scan_from-cursor found rollout now cursor.offset false ends,
        )
      ]

  scan_file-known :
      (files : Table FileCursor) (initialized : Bool) (rollout : Rollout) (now : Time)
      (baseline : Bool) (cursor : FileCursor)
      → entry files rollout.key ≡ some cursor
      → cursor.offset ≡ rollout.size
      → (scan_file paths files initialized rollout now baseline).1 ≡ []
  unfolding scan_file find_cursor scan_from
  scan_file-known files initialized rollout now baseline cursor e same = ground (arith, e, same)

  -- A rollout file is read once: after any scan of it, its first or a later one, a baseline or not, a scan of
  -- the file as it then is gives no events, if the file can be read and holds complete lines only.
  pub scan_file-once :
      (files : Table FileCursor) (initialized again : Bool) (rollout : Rollout) (now later : Time)
      (baseline : Bool)
      → ReadsToEnd rollout
      → let scanned = (scan_file paths files initialized rollout now baseline).0 in
        (scan_file paths scanned again rollout later false).1 ≡ []
  scan_file-once files initialized again rollout now later baseline ends =
      scan_file-known _ again rollout later false (seen_to rollout.size now)
        (scan_file-cursor files initialized rollout now baseline ends) refl

  -- The cursor of a moved file stands under another path.
  moved_from-elsewhere :
      (files : Table FileCursor) (rollout : Rollout) (path : String) (cursor : FileCursor)
      → moved_from paths files rollout ≡ some (path, cursor)
      → (path == rollout.key) ≡ false
  unfolding moved_from
  moved_from-elsewhere [] rollout path cursor e = cc
  moved_from-elsewhere ((i, c) ∷ rest) rollout path cursor e =
      ground (arith, e, moved_from-elsewhere rest rollout path cursor)

  -- When Codex archives a rollout file, its cursor moves with it: a file without a cursor under its own path,
  -- of a thread and a home that have one under another path, keeps that one's offset, gives no events if it
  -- has not grown, and the old path is retired.
  pub scan_file-moved :
      (files : Table FileCursor) (rollout : Rollout) (now : Time) (path : String)
      (cursor : FileCursor)
      → entry files rollout.key ≡ none
      → moved_from paths files rollout ≡ some (path, cursor)
      → cursor.offset ≡ rollout.size
      → let (scanned, events) = scan_file paths files true rollout now false in
        (events ≡ [])
        × (entry scanned rollout.key ≡ some (seen_to cursor.offset now))
        × (entry scanned path ≡ none)
  unfolding scan_file find_cursor migrate_file_cursor scan_from
  scan_file-moved files rollout now path cursor new moved same =
      let apart = moved_from-elsewhere files rollout path cursor moved in
      let assigned = assign files rollout.key cursor in
      ground (
        arith,
        new,
        moved,
        same,
        apart,
        entry-assign (delete assigned path) rollout.key rollout.key (seen_to cursor.offset now),
        entry-assign (delete assigned path) rollout.key path (seen_to cursor.offset now),
        entry-delete assigned path path,
        eq_refl rollout.key,
        eq_refl path,
      )
