-- ===== src/Thread/Turns.antt =====
-- The handlers of scripts/source/retry_state.go for what happens inside a turn and at its end, and the
-- notice of subagent_recovery.go.
use codex_auto_retry.Prelude.{
  ◌+◌, String, Bool, true, false, not, ◌&&◌, ◌||◌, Option, none, some, ◌==◌, is_some, if◌then◌else◌,
  Time, is_zero, before,
}
use codex_auto_retry.Text.{Text}
use codex_auto_retry.Model.{
  ThreadState, PendingRetry, AwaitingRetry, RelevantEvent, RetryAction, action_goal_active,
  action_goal_resume,
}
use codex_auto_retry.Config.{Config}
use codex_auto_retry.Goal.{automatic_goal_limit_stopped}
use codex_auto_retry.Classifier.{completion_succeeded}
use codex_auto_retry.Classifier.CcSwitch.{Json}
use codex_auto_retry.Thread.{
  Reply, no_change, stores, cancels_and_stores, ScannedEvent, reset_retry_state, cancel_retry,
}
use codex_auto_retry.Thread.Schedule.{Failure, schedule_failure}

abbrev pub or_last_started : String → ThreadState → String
or_last_started turn_id thread = if turn_id == "" then thread.last_started_turn_id else turn_id

abbrev pub is_goal_turn : RetryAction → Bool
is_goal_turn action_goal_active = true
is_goal_turn action_goal_resume = true
is_goal_turn _ = false

abbrev pub input_while_pending : ThreadState → String → Reply
input_while_pending thread turn_id =
    if is_some thread.pending && not (turn_id == "") && turn_id == thread.last_started_turn_id
    then cancel_retry thread
    else no_change

unfoldable pub handle_task_user_input : RelevantEvent → ThreadState → Reply
handle_task_user_input event thread =
    let turn_id = or_last_started event.turn_id thread in
    if automatic_goal_limit_stopped thread then no_change else elim thread.awaiting [
      | none ↦ input_while_pending thread turn_id
      | some awaiting ↦
          if awaiting.retry_turn_id == turn_id
          then (if is_goal_turn awaiting.action then cancel_retry thread else no_change)
          else input_while_pending thread turn_id
    ]

unfoldable pub handle_task_progress : RelevantEvent → ThreadState → Reply
handle_task_progress event thread = elim thread.awaiting [
  | none ↦ no_change
  | some awaiting ↦
      if awaiting.retry_turn_id == ""
        || not (awaiting.retry_turn_id == thread.last_started_turn_id)
        || (not (is_zero awaiting.started_at) && before event.timestamp awaiting.started_at)
      then no_change
      else stores (record thread { current_turn_progress = true })
]

unfoldable pub handle_turn_aborted : RelevantEvent → ThreadState → Reply
handle_turn_aborted event entry =
    let thread = record entry {
      last_aborted_turn_id = or_last_started event.turn_id entry;
      last_aborted_at = event.timestamp;
    } in
    if automatic_goal_limit_stopped thread
    then stores thread
    else cancels_and_stores (reset_retry_state thread)

unfoldable pub external_turn_origin : ThreadState → RelevantEvent → Time
external_turn_origin thread event =
    if event.turn_id == ""
      || not (event.turn_id == thread.last_external_turn_id)
      || is_zero thread.last_external_turn_at
      || before event.timestamp thread.last_external_turn_at
    then 0
    else thread.last_external_turn_at

-- A failed retry turn: the chain goes on, and progress restarts the count of retries without any.
abbrev pub next_failure : ScannedEvent → String → Time → Bool → AwaitingRetry → Failure
next_failure item key now progress awaiting = record {
  item = item;
  key = key;
  now = now;
  recovery_attempt = awaiting.attempt + 1;
  consecutive_retry = if progress then 1 else awaiting.consecutive_retry + 1;
  origin_turn_started_at = awaiting.origin_turn_started_at;
  parent_notified = awaiting.parent_notified;
}

abbrev pub first_failure : ScannedEvent → String → Time → ThreadState → Failure
first_failure item key now thread = record {
  item = item;
  key = key;
  now = now;
  recovery_attempt = 1;
  consecutive_retry = 1;
  origin_turn_started_at = external_turn_origin thread item.event;
  parent_notified = false;
}

module _ (decode : Text → Option Json) (config : Config) where
  unfoldable pub complete_awaiting :
      ScannedEvent → String → Time → ThreadState → AwaitingRetry → Reply
  complete_awaiting item key now thread awaiting =
      if awaiting.retry_turn_id == "" || not (awaiting.retry_turn_id == item.event.turn_id)
      then no_change
      else if completion_succeeded item.event
      then stores (reset_retry_state thread)
      else schedule_failure decode config
          (record thread { current_turn_progress = false; awaiting = none })
          (next_failure item key now thread.current_turn_progress awaiting)

  unfoldable pub complete_pending : ScannedEvent → ThreadState → PendingRetry → Reply
  complete_pending item thread pending =
      if not (pending.failed_turn_id == item.event.turn_id)
      then no_change
      else if completion_succeeded item.event
      then stores (reset_retry_state thread)
      else no_change

  unfoldable pub handle_task_complete : ScannedEvent → String → Time → ThreadState → Reply
  handle_task_complete item key now thread =
      if automatic_goal_limit_stopped thread
      then stores thread
      else if not (item.event.turn_id == "") && item.event.turn_id == thread.last_aborted_turn_id
      then stores (reset_retry_state thread)
      else elim thread.awaiting [
        | some awaiting ↦ complete_awaiting item key now thread awaiting
        | none ↦ elim thread.pending [
          | some pending ↦ complete_pending item thread pending
          | none ↦
              if completion_succeeded item.event
              then stores (reset_retry_state thread)
              else schedule_failure decode config (record thread { current_turn_progress = false })
                  (first_failure item key now thread)
        ]
      ]

-- `recovery_event_id` hashes the thread and the event key, see `Digest`.
abbrev pub mark_pending : (String → String) → String → Option PendingRetry → Option PendingRetry
mark_pending recovery_event_id id none = none
mark_pending recovery_event_id id (some pending) = some (
    if id == recovery_event_id pending.event_key
    then record pending { parent_notified = true }
    else pending)

abbrev pub mark_awaiting : (String → String) → String → Option AwaitingRetry → Option AwaitingRetry
mark_awaiting recovery_event_id id none = none
mark_awaiting recovery_event_id id (some awaiting) = some (
    if id == recovery_event_id awaiting.event_key
    then record awaiting { parent_notified = true }
    else awaiting)

abbrev marks_pending : (String → String) → String → Option PendingRetry → Bool
marks_pending recovery_event_id id none = false
marks_pending recovery_event_id id (some pending) = id == recovery_event_id pending.event_key

abbrev marks_awaiting : (String → String) → String → Option AwaitingRetry → Bool
marks_awaiting recovery_event_id id none = false
marks_awaiting recovery_event_id id (some awaiting) = id == recovery_event_id awaiting.event_key

unfoldable pub handle_subagent_recovery_notice :
    (String → String) → RelevantEvent → ThreadState → Reply
handle_subagent_recovery_notice recovery_event_id event thread =
    let id = event.recovery_event_id in
    if not (marks_pending recovery_event_id id thread.pending)
      && not (marks_awaiting recovery_event_id id thread.awaiting)
    then no_change
    else stores (record thread {
      pending = mark_pending recovery_event_id id thread.pending;
      awaiting = mark_awaiting recovery_event_id id thread.awaiting;
    })
