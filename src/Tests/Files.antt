-- ===== src/Tests/Files.antt =====
-- The theorems on the scanned files and the stored state, each at a small table.
use codex_auto_retry.Prelude.{
  ◌≤◌, ◌≡◌, inl, refl, true, false, some, [], ◌∷◌, Table, length, entry, UniqueKeys, Time,
}
use codex_auto_retry.Model.{FileCursor}
use codex_auto_retry.Daemon.Invariant.Loops.{WellFormedThreads}
use codex_auto_retry.Scanner.{Paths, Rollout, scan_file, moved_from, seen_to}
use codex_auto_retry.Scanner.Laws.{ReadsToEnd, scan_file-once}
use codex_auto_retry.State.Prune.{
  prune_threads, prune_events, prune_files, max_processed_event_entries, max_file_cursor_entries,
}
use codex_auto_retry.State.Kept.{prune_threads_keeps}
use codex_auto_retry.State.Trimmed.{prune_bounds}
use codex_auto_retry.State.Load.{repair_threads}
use codex_auto_retry.State.Loaded.{repair_threads-WellFormed}
use codex_auto_retry.Tests.Data.{
  failed_at, now, later, event, waiting_thread, daemon, daemon-AllWellFormed,
}

-- Every path is of the one thread, below its home.
abbrev paths : Paths
paths = record { thread_of_path = λ path. "a"; belongs_to = λ path home. true }

-- Its one line ends at byte 40.
abbrev rollout : Rollout
rollout = record {
  key = "home/archived/a.jsonl";
  path = "home/archived/a.jsonl";
  thread_id = "a";
  codex_home = "home";
  size = 40;
  read = λ offset. some (event ∷ [], 40);
}

rollout-ReadsToEnd : ReadsToEnd rollout
rollout-ReadsToEnd = λ offset. (event ∷ [], refl)

scan_file-once_example :
    let read = (scan_file paths [] true rollout now false).0 in
    (scan_file paths read true rollout later false).1 ≡ []
scan_file-once_example =
    scan_file-once paths [] true true rollout now later false rollout-ReadsToEnd

abbrev cursor : FileCursor
cursor = seen_to 40 failed_at

abbrev cursors : Table FileCursor
cursors = ("home/sessions/a.jsonl", cursor) ∷ []

cursors-moved : moved_from paths cursors rollout ≡ some ("home/sessions/a.jsonl", cursor)
unfolding moved_from
cursors-moved = refl

prune_threads_keeps_example : entry (prune_threads now daemon.threads) "a" ≡ some waiting_thread
unfolding entry
prune_threads_keeps_example =
    prune_threads_keeps now daemon.threads "a" waiting_thread daemon-AllWellFormed.1 refl (inl refl)

abbrev events : Table Time
events = ("first", failed_at) ∷ ("second", now) ∷ []

prune_bounds_example :
    (length (prune_events now events) ≤ max_processed_event_entries)
    × (length (prune_files now cursors) ≤ max_file_cursor_entries)
prune_bounds_example = prune_bounds now events cursors ((refl, tt), (tt, tt)) (tt, tt)

repair_threads-WellFormed_example :
    WellFormedThreads (repair_threads daemon.threads) × UniqueKeys (repair_threads daemon.threads)
repair_threads-WellFormed_example = repair_threads-WellFormed daemon.threads daemon-AllWellFormed
