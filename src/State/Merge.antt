-- ===== src/State/Merge.antt =====
-- `mergeMigratedThreadState` of scripts/source/state_migration.go: which of two stored states of one
-- thread is kept.
use codex_auto_retry.Prelude.{
  ℕ, ◌&&◌, ◌||◌, Option, none, some, ltb, eqb, if◌then◌else◌, Time, is_zero, after,
}
use codex_auto_retry.Model.{ThreadState, AwaitingRetry, PendingRetry, StoppedRetry}

abbrev pub stopped_rank : Time → Option StoppedRetry → ℕ × Time
stopped_rank failed_at none = (0, failed_at)
stopped_rank failed_at (some stopped) = (1, stopped.stopped_at)

abbrev pub pending_rank : ℕ × Time → Option PendingRetry → ℕ × Time
pending_rank rest none = rest
pending_rank rest (some pending) =
    (2, if is_zero pending.failed_at then pending.due_at else pending.failed_at)

abbrev pub awaiting_rank : ℕ × Time → Option AwaitingRetry → ℕ × Time
awaiting_rank rest none = rest
awaiting_rank rest (some awaiting) = (
  3,
  if is_zero awaiting.dispatch_started_at
      then awaiting.started_at
      else awaiting.dispatch_started_at,
)

-- `migratedThreadStateRank`
unfoldable pub migrated_rank : ThreadState → ℕ × Time
migrated_rank thread =
    awaiting_rank (pending_rank (stopped_rank thread.last_failure_at thread.stopped) thread.pending)
      thread.awaiting

unfoldable pub merge_migrated : ThreadState → ThreadState → ThreadState
unfolding migrated_rank
merge_migrated left right =
    let (left_rank, left_at) = migrated_rank left in
    let (right_rank, right_at) = migrated_rank right in
    if ltb left_rank right_rank || (eqb right_rank left_rank && after right_at left_at)
    then right
    else left
