-- ===== src/Thread.antt =====
-- The retry state of one thread, as the handlers of scripts/source/retry_state.go change it. A handler
-- gets the entry of the thread (the zero value for a new thread) and replies with what it does.
pub mod Schedule
pub mod Events
pub mod Turns
pub mod GoalUpdate
pub mod Control
pub mod Awaiting
pub mod Lifecycle
pub mod Queue
pub mod WellFormed
pub mod Budget
pub mod Redispatch
pub mod Claims
pub mod Reopen
use codex_auto_retry.Prelude.{
  ℕ, String, Bool, true, false, ◌&&◌, Option, none, some, ◌==◌, if◌then◌else◌, Time,
}
use codex_auto_retry.Model.{
  FailureClass, ThreadState, PendingRetry, StoppedRetry, GoalStopRequest, RelevantEvent,
}
use codex_auto_retry.Config.{Config}
use codex_auto_retry.Policy.{is_empty_response, completed_retry_count, retry_stop_reason_for_class}
use codex_auto_retry.Goal.{goal_empty_response_stop_reason}

-- `stored` is what the handler writes to `state.Threads[threadID]` (`none`: it returns before the
-- write), `cancels` whether it calls the thread's `activeCtx` function, and `error` what it assigns
-- to `lastError`.
pub record Reply : Type 0 where
  pub stored : Option ThreadState
  pub cancels : Bool
  pub error : Option String

abbrev pub no_change : Reply
no_change = record { stored = none; cancels = false; error = none }

abbrev pub stores : ThreadState → Reply
stores thread = record { stored = some thread; cancels = false; error = none }

abbrev pub cancels_and_stores : ThreadState → Reply
cancels_and_stores thread = record { stored = some thread; cancels = true; error = none }

-- The zero value of `ThreadState`.
abbrev pub zero_thread : ThreadState
zero_thread = record {
  recovery_attempts = 0;
  consecutive_retries = 0;
  recovery_started_at = 0;
  legacy_failures = 0;
  last_failure_at = 0;
  last_auto_retry_at = 0;
  goal_status = "";
  goal_updated_at = 0;
  goal_observed_at = 0;
  goal_held = false;
  last_started_turn_id = "";
  last_started_at = 0;
  last_external_turn_id = "";
  last_external_turn_at = 0;
  current_turn_progress = false;
  last_aborted_turn_id = "";
  last_aborted_at = 0;
  pending = none;
  awaiting = none;
  stopped = none;
  goal_stop = none;
}

-- A scanned event with its file: `scannedEvent`, whose root counts by its `CodexHome` here.
pub record ScannedEvent : Type 0 where
  pub thread_id : String
  pub event : RelevantEvent
  pub codex_home : String
  pub rollout_path : String
  pub mirrored : Bool

-- `resetRetryStateLocked`
unfoldable pub reset_retry_state : ThreadState → ThreadState
reset_retry_state thread = record thread {
  pending = none;
  awaiting = none;
  recovery_attempts = 0;
  consecutive_retries = 0;
  current_turn_progress = false;
  stopped = none;
  goal_stop = none;
}

-- `cancelRetryLocked`
unfoldable pub cancel_retry : ThreadState → Reply
cancel_retry thread = cancels_and_stores (reset_retry_state thread)

-- An empty response that exhausts the budget of an active goal stops the goal.
abbrev pub goal_reason : ThreadState → FailureClass → String → String
goal_reason thread c reason =
    if is_empty_response c && thread.goal_status == "active"
    then goal_empty_response_stop_reason
    else reason

abbrev pub goal_stop_for : String → String → Time → Option GoalStopRequest → Option GoalStopRequest
goal_stop_for reason key now current =
    if reason == goal_empty_response_stop_reason
    then some (record {
      event_key = key;
      reason = reason;
      requested_at = now;
      due_at = now;
      dispatch_failures = 0;
    })
    else current

-- The stopped entry that a pending retry leaves.
abbrev pub stopped_pending : PendingRetry → Time → String → Option Bool → StoppedRetry
stopped_pending pending now reason transport_blocked = record {
  event_key = pending.event_key;
  failed_turn_id = pending.failed_turn_id;
  failed_at = pending.failed_at;
  origin_turn_started_at = pending.origin_turn_started_at;
  failure_class = pending.failure_class;
  stopped_at = now;
  codex_home = pending.codex_home;
  rollout_path = pending.rollout_path;
  attempts = completed_retry_count pending.attempt;
  max_attempts = pending.max_attempts;
  consecutive_retries = completed_retry_count pending.consecutive_retry;
  max_consecutive = pending.max_consecutive;
  reason = reason;
  historical = false;
  transport_blocked = transport_blocked;
}

-- `stopPendingRetryLocked`
unfoldable pub stop_pending_retry : Config → ThreadState → Time → Reply
stop_pending_retry config thread now = elim thread.pending [
  | none ↦ no_change
  | some pending ↦
      let reason = goal_reason thread pending.failure_class (
        retry_stop_reason_for_class pending.failure_class config pending.attempt
          pending.max_attempts pending.consecutive_retry pending.max_consecutive) in
      stores (record thread {
        pending = none;
        awaiting = none;
        recovery_attempts = completed_retry_count pending.attempt;
        consecutive_retries = completed_retry_count pending.consecutive_retry;
        stopped = some (stopped_pending pending now reason none);
        goal_stop = goal_stop_for reason pending.event_key now thread.goal_stop;
      })
]
