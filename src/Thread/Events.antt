-- ===== src/Thread/Events.antt =====
-- The event handlers of scripts/source/retry_state.go and subagent_recovery.go.
use codex_auto_retry.Prelude.{
  ◌+◌, ◌-◌, ◌*◌, Bool, false, not, ◌&&◌, ◌||◌, none, some, ◌==◌, if◌then◌else◌, Time, second,
  is_zero, before, after,
}
use codex_auto_retry.Model.{
  ThreadState, PendingRetry, AwaitingRetry, RelevantEvent, RetryAction, no_action,
  action_goal_active, action_subagent_continue,
}
use codex_auto_retry.Goal.{
  automatic_goal_limit_stopped, can_adopt_native_goal_turn, can_adopt_subagent_turn,
}
use codex_auto_retry.Thread.{Reply, no_change, stores, cancel_retry}

-- The start of a turn is credited to the retry dispatched last if it falls into the window from 2
-- seconds before the dispatch to 2 seconds behind the deadline.
unfoldable pub within_dispatch_window : AwaitingRetry → Time → Bool
within_dispatch_window awaiting at =
    not (before at (awaiting.dispatch_started_at - 2 * second))
    && (is_zero awaiting.start_deadline || not (after at (awaiting.start_deadline + 2 * second)))

abbrev pub external_turn : ThreadState → RelevantEvent → ThreadState
external_turn thread event = record thread {
  last_external_turn_id = event.turn_id;
  last_external_turn_at = event.timestamp;
}

abbrev pub adoption : ThreadState → RelevantEvent → RetryAction
adoption thread event =
    if can_adopt_native_goal_turn thread event
    then action_goal_active
    else if can_adopt_subagent_turn thread event
    then action_subagent_continue
    else no_action

-- The turn that joins a waiting retry.
unfoldable pub adopt_turn : ThreadState → PendingRetry → RelevantEvent → RetryAction → ThreadState
adopt_turn thread pending event action = record thread {
  pending = none;
  last_auto_retry_at = event.timestamp;
  awaiting = some (record {
    event_key = pending.event_key;
    failed_turn_id = pending.failed_turn_id;
    failed_at = pending.failed_at;
    origin_turn_started_at = pending.origin_turn_started_at;
    retry_turn_id = event.turn_id;
    failure_class = pending.failure_class;
    action = action;
    attempt = pending.attempt;
    max_attempts = pending.max_attempts;
    consecutive_retry = pending.consecutive_retry;
    max_consecutive = pending.max_consecutive;
    dispatch_failures = pending.dispatch_failures;
    parent_notified = pending.parent_notified;
    goal_limit_restart = pending.goal_limit_restart;
    dispatch_started_at = event.timestamp;
    start_deadline = 0;
    started_at = event.timestamp;
    lifecycle_checks = 0;
    last_lifecycle_check_at = 0;
    codex_home = pending.codex_home;
    rollout_path = pending.rollout_path;
  });
}

unfoldable pub started_while_awaiting : ThreadState → AwaitingRetry → RelevantEvent → Reply
started_while_awaiting thread awaiting event =
    if awaiting.retry_turn_id == ""
      && not (event.turn_id == "")
      && within_dispatch_window awaiting event.timestamp
    then stores (record thread {
      awaiting =
          some (record awaiting { retry_turn_id = event.turn_id; started_at = event.timestamp });
    })
    else if awaiting.retry_turn_id == event.turn_id
    then no_change
    else cancel_retry (external_turn thread event)

unfoldable pub started_while_pending : ThreadState → PendingRetry → RelevantEvent → Reply
started_while_pending thread pending event = elim (adoption thread event) [
  | no_action ↦ cancel_retry (external_turn thread event)
  | action ↦ stores (adopt_turn thread pending event action)
]

abbrev pub note_start : ThreadState → RelevantEvent → ThreadState
note_start thread event = record thread {
  last_started_turn_id = event.turn_id;
  last_started_at = event.timestamp;
  current_turn_progress = false;
}

unfoldable pub handle_task_started : RelevantEvent → ThreadState → Reply
handle_task_started event entry =
    let thread = note_start entry event in
    if automatic_goal_limit_stopped thread then stores thread else elim thread.awaiting [
      | some awaiting ↦ started_while_awaiting thread awaiting event
      | none ↦ elim thread.pending [
        | some pending ↦ started_while_pending thread pending event
        | none ↦ stores (record (external_turn thread event) {
          recovery_attempts = 0;
          consecutive_retries = 0;
          stopped = none;
          goal_stop = none;
        })
      ]
    ]
