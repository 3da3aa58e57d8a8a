-- ===== src/State/Load.antt =====
-- The loop of `loadState` of scripts/source/state.go, which brings the entries of older versions up to
-- date. The file and its JSON are read outside; so are the renamed threads of state_migration.go.
use codex_auto_retry.Prelude.{
  ℕ, Option, none, some, [], ◌∷◌, ltb, ◌==◌, if◌then◌else◌, Time, is_zero, Table,
}
use codex_auto_retry.Model.{ThreadState, PendingRetry, AwaitingRetry, StoppedRetry, GoalStopRequest}

-- `if n < 1 { n = fallback }`
abbrev pub or_if_zero : ℕ → ℕ → ℕ
or_if_zero n fallback = if ltb n 1 then fallback else n

abbrev pub or_time : Time → Time → Time
or_time t fallback = if is_zero t then fallback else t

-- The counters of the thread, from the single one of older versions.
unfoldable pub migrate_counters : ThreadState → ThreadState
migrate_counters thread = record thread {
  recovery_attempts = or_if_zero thread.recovery_attempts thread.legacy_failures;
  consecutive_retries = or_if_zero thread.consecutive_retries thread.legacy_failures;
  legacy_failures = 0;
}

-- `recovery`, `consecutive` and `failed_at` are the thread's.
unfoldable pub repair_pending : ℕ → ℕ → Time → Option PendingRetry → Option PendingRetry
repair_pending recovery consecutive failed_at none = none
repair_pending recovery consecutive failed_at (some pending) =
    let attempt = or_if_zero pending.attempt (or_if_zero recovery 1) in
    some (record pending {
      attempt = attempt;
      consecutive_retry = or_if_zero pending.consecutive_retry (or_if_zero consecutive attempt);
      max_consecutive = or_if_zero pending.max_consecutive pending.max_attempts;
      failed_at = or_time pending.failed_at failed_at;
    })

unfoldable pub repair_awaiting : ℕ → Time → Option AwaitingRetry → Option AwaitingRetry
repair_awaiting consecutive failed_at none = none
repair_awaiting consecutive failed_at (some awaiting) = some (record awaiting {
  consecutive_retry =
      or_if_zero awaiting.consecutive_retry (or_if_zero consecutive awaiting.attempt);
  max_consecutive = or_if_zero awaiting.max_consecutive awaiting.max_attempts;
  failed_at = or_time awaiting.failed_at failed_at;
})

unfoldable pub repair_stopped : Option StoppedRetry → Option StoppedRetry
repair_stopped none = none
repair_stopped (some stopped) = some (record stopped {
  consecutive_retries = or_if_zero stopped.consecutive_retries stopped.attempts;
  max_consecutive = or_if_zero stopped.max_consecutive stopped.max_attempts;
})

-- A request without the stopped entry that it is for is dropped.
unfoldable pub repair_goal_stop :
    Option GoalStopRequest → Option StoppedRetry → Option GoalStopRequest
repair_goal_stop none stopped = none
repair_goal_stop (some request) none = none
repair_goal_stop (some request) (some stopped) =
    if request.event_key == stopped.event_key then some request else none

unfoldable pub repair_thread : ThreadState → ThreadState
unfolding migrate_counters
repair_thread entry =
    let thread = migrate_counters entry in
    record thread {
      pending =
          repair_pending thread.recovery_attempts thread.consecutive_retries thread.last_failure_at
            thread.pending;
      awaiting = repair_awaiting thread.consecutive_retries thread.last_failure_at thread.awaiting;
      stopped = repair_stopped thread.stopped;
      goal_stop = repair_goal_stop thread.goal_stop thread.stopped;
    }

unfoldable pub repair_threads : Table ThreadState → Table ThreadState
repair_threads [] = []
repair_threads ((id, thread) ∷ rest) = (id, repair_thread thread) ∷ repair_threads rest
