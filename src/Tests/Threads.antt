-- ===== src/Tests/Threads.antt =====
-- The theorems on a thread's retries, each at one of the threads of the data.
use codex_auto_retry.Thread.{no_change}
use codex_auto_retry.Prelude.{
  ◌+◌, ◌-◌, ◌≤◌, ◌≡◌, ◌≢◌, ◌↔◌, refl, arith, true, false, some, none, is_some, second,
  if◌then◌else◌, ◌*◌,
}
use codex_auto_retry.Model.{
  RelevantEvent, RetryDecision, ThreadState, PendingRetry, class_server, class_empty_response,
}
use codex_auto_retry.Config.{default_config}
use codex_auto_retry.Policy.{
  max_automatic_recovery_duration, retry_limits_for_decision, retry_delay, exponential_delay,
}
use codex_auto_retry.Goal.{automatic_goal_limit_stopped}
use codex_auto_retry.Thread.{ScannedEvent}
use codex_auto_retry.Thread.Schedule.{
  Failure, schedule_failure, pass_goal_hold, start_recovery_clock, schedule_decision,
  scheduled_thread,
}
use codex_auto_retry.Text.{is_blank}
use codex_auto_retry.Classifier.{classify_completion_failure, completion_succeeded}
use codex_auto_retry.Thread.Turns.{complete_awaiting, handle_task_complete, handle_turn_aborted}
use codex_auto_retry.Thread.Events.{handle_task_started}
use codex_auto_retry.Thread.GoalUpdate.{handle_goal_updated}
use codex_auto_retry.Thread.Budget.{
  IsWithinBudget, pending_of, handle_task_complete-budget, schedule_decision-exact,
}
use codex_auto_retry.Thread.Claims.{
  stored_or_same, awaits_turn, handle_task_started-claims, handle_task_complete-turn_aborted,
  handle_goal_updated-once,
}
use codex_auto_retry.Thread.WellFormed.{stopped_attempts}
use codex_auto_retry.Tests.Data.{
  no_json, failed_at, now, later, event, started, scanned, pending, awaiting, awaiting_thread,
  failing, waiting_thread, waiting_thread-IsWellFormed, default_config-IsValid,
}

-- The awaited turn ends without an answer: the next retry is the third of the outage and the second of the streak.
abbrev failed_again : ScannedEvent
failed_again = record scanned {
  event = record event { turn_id = "turn-2"; timestamp = now; error_text = "" };
}

abbrev next_pending : PendingRetry
next_pending = record pending {
  event_key = "next";
  failed_turn_id = "turn-2";
  failed_at = now;
  failure_class = class_empty_response;
  due_at = 1030 * second;
  attempt = 3;
  consecutive_retry = 2;
}

failed_again-schedules :
    pending_of
      (handle_task_complete no_json default_config failed_again "next" later awaiting_thread).stored
    ≡ some next_pending
unfolding handle_task_complete automatic_goal_limit_stopped complete_awaiting completion_succeeded
    is_blank schedule_failure pass_goal_hold start_recovery_clock schedule_decision scheduled_thread
    classify_completion_failure retry_limits_for_decision retry_delay exponential_delay
    default_config
failed_again-schedules = refl

handle_task_complete-budget_example :
    IsWithinBudget default_config later next_pending
    × (next_pending.attempt ≡ awaiting.attempt + 1)
    × (next_pending.consecutive_retry ≡ awaiting.consecutive_retry + 1)
handle_task_complete-budget_example =
    handle_task_complete-budget no_json default_config failed_again "next" later awaiting_thread
      next_pending default_config-IsValid refl failed_again-schedules

abbrev second_failure : Failure
second_failure = record {
  item = scanned;
  key = "key";
  now = now;
  recovery_attempt = 2;
  consecutive_retry = 2;
  origin_turn_started_at = 0;
  parent_notified = false;
}

abbrev decision : RetryDecision
decision = record {
  retry = true;
  failure_class = class_server;
  max_attempts = 0;
  max_consecutive = 0;
  reason = "http_server";
}

schedule_decision-exact_example :
    let (recovery, consecutive) = retry_limits_for_decision decision default_config in
    let t' = schedule_decision default_config failing second_failure decision in
    (is_some t'.pending ≡ true
      ↔ (decision.retry ≡ true)
        × (second_failure.recovery_attempt ≤ recovery)
        × (second_failure.consecutive_retry ≤ consecutive)
        × (second_failure.now - failing.recovery_started_at ≤ max_automatic_recovery_duration))
    × (is_some t'.stopped ≡ true ↔ (decision.retry ≡ true) × (t'.pending ≡ none))
    × (stopped_attempts t'.stopped
        ≡ (if is_some t'.stopped then second_failure.recovery_attempt - 1 else 0))
schedule_decision-exact_example =
    schedule_decision-exact default_config failing second_failure decision

handle_task_started-claims_example :
    let t' = stored_or_same waiting_thread (handle_task_started started waiting_thread).stored in
    (t'.pending ≡ none) × (awaits_turn "turn-2" t'.awaiting ≡ true)
unfolding automatic_goal_limit_stopped
handle_task_started-claims_example =
    handle_task_started-claims started waiting_thread waiting_thread-IsWellFormed refl

-- An empty response of an active goal, whose next turn the goal starts a second later.
abbrev empty_pending : PendingRetry
empty_pending = record pending { failure_class = class_empty_response }

abbrev empty_thread : ThreadState
empty_thread = record failing { pending = some empty_pending; goal_status = "active" }

abbrev next_turn : RelevantEvent
next_turn = record started { timestamp = 1001 * second }

handle_task_complete-turn_aborted_example :
    let aborted = stored_or_same waiting_thread (handle_turn_aborted event waiting_thread).stored in
    let completed =
      stored_or_same aborted
        (handle_task_complete no_json default_config scanned "key" later aborted).stored in
    (aborted.pending ≡ none)
    × (aborted.awaiting ≡ none)
    × (completed.pending ≡ none)
    × (completed.awaiting ≡ none)
    × (completed.stopped ≡ none)
unfolding automatic_goal_limit_stopped
handle_task_complete-turn_aborted_example =
    handle_task_complete-turn_aborted no_json default_config scanned "key" later event
      waiting_thread refl (λ e. absurd (cc)) refl

abbrev goal_paused : RelevantEvent
goal_paused = record event {
  kind = "thread_goal_updated";
  goal_status = "paused";
  goal_updated_at = now;
}

failed_at-set : failed_at ≢ 0
failed_at-set = omega arith

handle_goal_updated-once_example :
    handle_goal_updated goal_paused
      (stored_or_same waiting_thread (handle_goal_updated goal_paused waiting_thread).stored)
    ≡ no_change
handle_goal_updated-once_example = handle_goal_updated-once goal_paused waiting_thread failed_at-set
