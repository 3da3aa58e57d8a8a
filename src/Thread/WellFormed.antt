-- ===== src/Thread/WellFormed.antt =====
-- The invariant of a thread's retry state (scripts/source/retry_state.go, goal_recovery.go, daemon.go).
pub mod Started
pub mod Scheduled
pub mod Turns
pub mod Goals
pub mod Commands
pub mod Queue
use codex_auto_retry.Prelude.{
  ℕ, ◌≤◌, ◌≡◌, refl, Bool, true, false, ◌&&◌, ◌||◌, Option, none, some, ◌==◌, is_some, arith,
}
use codex_auto_retry.Model.{ThreadState, PendingRetry, AwaitingRetry, StoppedRetry, GoalStopRequest}
use codex_auto_retry.Goal.{goal_empty_response_stop_reason}
use codex_auto_retry.Thread.{Reply, zero_thread, reset_retry_state, cancel_retry}

-- The counters of an entry, 0 without one.
abbrev pub pending_attempt : Option PendingRetry → ℕ
pending_attempt none = 0
pending_attempt (some pending) = pending.attempt

abbrev pub pending_consecutive : Option PendingRetry → ℕ
pending_consecutive none = 0
pending_consecutive (some pending) = pending.consecutive_retry

abbrev pub awaiting_attempt : Option AwaitingRetry → ℕ
awaiting_attempt none = 0
awaiting_attempt (some awaiting) = awaiting.attempt

abbrev pub awaiting_consecutive : Option AwaitingRetry → ℕ
awaiting_consecutive none = 0
awaiting_consecutive (some awaiting) = awaiting.consecutive_retry

abbrev pub stopped_attempts : Option StoppedRetry → ℕ
stopped_attempts none = 0
stopped_attempts (some stopped) = stopped.attempts

abbrev pub stopped_consecutive : Option StoppedRetry → ℕ
stopped_consecutive none = 0
stopped_consecutive (some stopped) = stopped.consecutive_retries

-- A request to stop the goal belongs to a stopped entry of the same failure and of that reason.
abbrev pub goal_stop_owned : Option GoalStopRequest → Option StoppedRetry → Bool
goal_stop_owned none stopped = true
goal_stop_owned (some request) none = false
goal_stop_owned (some request) (some stopped) =
    request.event_key == stopped.event_key && stopped.reason == goal_empty_response_stop_reason

-- A thread waits for its next retry, or for the turn of a dispatched one, or has stopped, and never
-- two of these; the entry's counters are the thread's, start at 1, and a retry without progress is
-- a retry of this outage.
pub record IsWellFormed (t : ThreadState) : Type 0 where
  pub pending_alone : is_some t.pending ≡ true → (t.awaiting ≡ none) × (t.stopped ≡ none)
  pub awaiting_alone : is_some t.awaiting ≡ true → t.stopped ≡ none
  pub goal_stop_has_owner : goal_stop_owned t.goal_stop t.stopped ≡ true
  pub pending_counted :
      is_some t.pending ≡ true
      → (pending_attempt t.pending ≡ t.recovery_attempts)
        × (pending_consecutive t.pending ≡ t.consecutive_retries)
  pub awaiting_counted :
      is_some t.awaiting ≡ true
      → (awaiting_attempt t.awaiting ≡ t.recovery_attempts)
        × (awaiting_consecutive t.awaiting ≡ t.consecutive_retries)
  pub counts_from_one :
      (is_some t.pending || is_some t.awaiting) ≡ true
      → (1 ≤ t.consecutive_retries) × (t.consecutive_retries ≤ t.recovery_attempts)
  pub stopped_ordered : stopped_consecutive t.stopped ≤ stopped_attempts t.stopped

-- Whatever the reply stores is well-formed.
abbrev pub StoresWellFormed : Option ThreadState → Type 0
StoresWellFormed none = Unit {0}
StoresWellFormed (some thread) = IsWellFormed thread

abbrev pub Keeps : Reply → Type 0
Keeps reply = StoresWellFormed reply.stored

pub zero_thread-IsWellFormed : IsWellFormed zero_thread
zero_thread-IsWellFormed = ground arith

pub reset_retry_state-IsWellFormed : (t : ThreadState) → IsWellFormed (reset_retry_state t)
unfolding reset_retry_state
reset_retry_state-IsWellFormed t = ground arith

pub cancel_retry-Keeps : (t : ThreadState) → Keeps (cancel_retry t)
unfolding cancel_retry
cancel_retry-Keeps t = reset_retry_state-IsWellFormed t
