-- ===== src/Thread/Schedule.antt =====
-- `scheduleFailureLocked` of scripts/source/retry_state.go: what follows a turn that failed.
use codex_auto_retry.Prelude.{
  ℕ, ◌+◌, ◌-◌, String, Bool, false, not, ◌&&◌, ◌||◌, Option, none, some, ltb, eqb, ◌==◌,
  if◌then◌else◌, Time, is_zero,
}
use codex_auto_retry.Text.{Text}
use codex_auto_retry.Model.{ThreadState, RetryDecision}
use codex_auto_retry.Config.{Config}
use codex_auto_retry.Policy.{
  max_automatic_recovery_duration, completed_retry_count, retry_limits_for_decision,
  retry_stop_reason_for_class, retry_delay,
}
use codex_auto_retry.Goal.{goal_blocked_by_failure, held_conversation_allowed}
use codex_auto_retry.Classifier.{classify_completion_failure}
use codex_auto_retry.Classifier.CcSwitch.{Json}
use codex_auto_retry.Thread.{
  Reply, stores, ScannedEvent, reset_retry_state, goal_reason, goal_stop_for,
}

-- The arguments of the call behind the thread.
pub record Failure : Type 0 where
  pub item : ScannedEvent
  pub key : String
  pub now : Time
  pub recovery_attempt : ℕ
  pub consecutive_retry : ℕ
  pub origin_turn_started_at : Time
  pub parent_notified : Bool

-- The first two tests of the function start the recovery clock.
unfoldable pub start_recovery_clock : ThreadState → Time → ThreadState
start_recovery_clock thread now =
    if (eqb thread.recovery_attempts 0 && eqb thread.consecutive_retries 0)
      || is_zero thread.recovery_started_at
    then record thread { recovery_started_at = now }
    else thread

-- The first branch: the goal's hold forbids the retry.
abbrev pub held_thread : ThreadState → Failure → ThreadState
held_thread thread f = record thread {
  pending = none;
  awaiting = none;
  recovery_attempts = 0;
  consecutive_retries = 0;
  current_turn_progress = false;
  last_failure_at = f.item.event.timestamp;
}

-- A limit, or the time limit, is exceeded.
unfoldable pub exhausted_thread :
    Config → ThreadState → Failure → RetryDecision → ℕ → ℕ → Bool → ThreadState
exhausted_thread config thread f d recovery_limit consecutive_limit time_limit_exceeded =
    let reason = goal_reason thread d.failure_class (
      if time_limit_exceeded
      then "recovery_time_limit"
      else retry_stop_reason_for_class d.failure_class config f.recovery_attempt recovery_limit
          f.consecutive_retry consecutive_limit) in
    record thread {
      pending = none;
      awaiting = none;
      recovery_attempts = completed_retry_count f.recovery_attempt;
      consecutive_retries = completed_retry_count f.consecutive_retry;
      current_turn_progress = false;
      last_failure_at = f.item.event.timestamp;
      stopped = some (record {
        event_key = f.key;
        failed_turn_id = f.item.event.turn_id;
        failed_at = f.item.event.timestamp;
        origin_turn_started_at = f.origin_turn_started_at;
        failure_class = d.failure_class;
        stopped_at = f.now;
        codex_home = f.item.codex_home;
        rollout_path = f.item.rollout_path;
        attempts = completed_retry_count f.recovery_attempt;
        max_attempts = recovery_limit;
        consecutive_retries = completed_retry_count f.consecutive_retry;
        max_consecutive = consecutive_limit;
        reason = reason;
        historical = false;
        transport_blocked = none;
      });
      goal_stop = goal_stop_for reason f.key f.now thread.goal_stop;
    }

-- The retry is scheduled.
unfoldable pub scheduled_thread :
    Config → ThreadState → Failure → RetryDecision → ℕ → ℕ → ThreadState
scheduled_thread config thread f d recovery_limit consecutive_limit = record thread {
  recovery_attempts = f.recovery_attempt;
  consecutive_retries = f.consecutive_retry;
  current_turn_progress = false;
  last_failure_at = f.item.event.timestamp;
  awaiting = none;
  stopped = none;
  goal_stop = none;
  pending = some (record {
    event_key = f.key;
    failed_turn_id = f.item.event.turn_id;
    failed_at = f.item.event.timestamp;
    origin_turn_started_at = f.origin_turn_started_at;
    failure_class = d.failure_class;
    due_at = f.now + retry_delay f.consecutive_retry config;
    codex_home = f.item.codex_home;
    rollout_path = f.item.rollout_path;
    attempt = f.recovery_attempt;
    max_attempts = recovery_limit;
    consecutive_retry = f.consecutive_retry;
    max_consecutive = consecutive_limit;
    dispatch_failures = 0;
    parent_notified = f.parent_notified;
    goal_limit_restart = false;
  });
}

-- From the classification on.
unfoldable pub schedule_decision : Config → ThreadState → Failure → RetryDecision → ThreadState
schedule_decision config thread f d =
    let (recovery_limit, consecutive_limit) = retry_limits_for_decision d config in
    let time_limit_exceeded =
      ltb max_automatic_recovery_duration (f.now - thread.recovery_started_at) in
    if not d.retry
    then reset_retry_state thread
    else if time_limit_exceeded
        || ltb recovery_limit f.recovery_attempt
        || ltb consecutive_limit f.consecutive_retry
    then exhausted_thread config thread f d recovery_limit consecutive_limit time_limit_exceeded
    else scheduled_thread config thread f d recovery_limit consecutive_limit

-- The goal's hold, before the classification: the thread to go on with, or `none` where the hold
-- ends the handler.
unfoldable pub pass_goal_hold : ThreadState → Failure → Option ThreadState
pass_goal_hold thread f =
    if not thread.goal_held
    then some thread
    else if thread.goal_status == "blocked"
        && goal_blocked_by_failure thread.goal_updated_at f.item.event.timestamp
    then some (record thread { goal_held = false })
    else if held_conversation_allowed thread.goal_status thread.goal_updated_at
        f.origin_turn_started_at
    then some thread
    else none

module _ (decode : Text → Option Json) where
  unfoldable pub schedule_failure : Config → ThreadState → Failure → Reply
  schedule_failure config thread f =
      let started = start_recovery_clock thread f.now in
      stores (elim (pass_goal_hold started f) [
        | none ↦ held_thread started f
        | some passed ↦
            schedule_decision config passed f
              (classify_completion_failure decode f.item.event config)
      ])
