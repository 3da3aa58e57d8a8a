-- ===== src/Thread/Control.antt =====
-- The user's commands, `applyControlCommandLocked` of scripts/source/retry_state.go, and
-- `reconcileStartupState` of the same file.
use codex_auto_retry.Prelude.{ℕ, false, none, some, ◌==◌, if◌then◌else◌, Time}
use codex_auto_retry.Model.{ThreadState, PendingRetry, AwaitingRetry, StoppedRetry}
use codex_auto_retry.Config.{Config}
use codex_auto_retry.Policy.{retry_limits}
use codex_auto_retry.Goal.{is_goal_empty_response_stop_reason}
use codex_auto_retry.Thread.{Reply, no_change, stores, cancels_and_stores}

-- `ControlCommandAction`; a command file with another action is invalid and is not applied.
pub data ControlAction : Type 0 where
  command_retry_now command_cancel_retry command_restart_retry : ControlAction

-- The retry that a restart queues, with a fresh budget.
abbrev pub restarted_retry : Config → Time → StoppedRetry → PendingRetry
restarted_retry config now stopped =
    let (recovery_limit, consecutive_limit) = retry_limits stopped.failure_class config in
    record {
      event_key = stopped.event_key;
      failed_turn_id = stopped.failed_turn_id;
      failed_at = stopped.failed_at;
      origin_turn_started_at = stopped.origin_turn_started_at;
      failure_class = stopped.failure_class;
      due_at = now;
      codex_home = stopped.codex_home;
      rollout_path = stopped.rollout_path;
      attempt = 1;
      max_attempts = recovery_limit;
      consecutive_retry = 1;
      max_consecutive = consecutive_limit;
      dispatch_failures = 0;
      parent_notified = false;
      goal_limit_restart = is_goal_empty_response_stop_reason stopped.reason;
    }

unfoldable pub restart_stopped : Config → Time → ThreadState → StoppedRetry → ThreadState
restart_stopped config now thread stopped = record thread {
  stopped = none;
  goal_stop = none;
  goal_held = false;
  recovery_attempts = 1;
  consecutive_retries = 1;
  recovery_started_at = now;
  pending = some (restarted_retry config now stopped);
}

unfoldable pub apply_control_command : Config → ControlAction → Time → ThreadState → Reply
apply_control_command config command_retry_now now thread = elim thread.pending [
  | none ↦ no_change
  | some pending ↦ stores (record thread { pending = some (record pending { due_at = now }) })
]
apply_control_command config command_cancel_retry now thread = elim thread.pending [
  | none ↦ no_change
  | some pending ↦ stores (record thread {
    pending = none;
    recovery_attempts = 0;
    consecutive_retries = 0;
    current_turn_progress = false;
    goal_stop = none;
  })
]
apply_control_command config command_restart_retry now thread = elim thread.stopped [
  | none ↦ no_change
  | some stopped ↦ cancels_and_stores (restart_stopped config now thread stopped)
]

-- The pending retry that takes up what an awaited one left off.
abbrev pub requeued : AwaitingRetry → Time → ℕ → PendingRetry
requeued awaiting due_at dispatch_failures = record {
  event_key = awaiting.event_key;
  failed_turn_id = awaiting.failed_turn_id;
  failed_at = awaiting.failed_at;
  origin_turn_started_at = awaiting.origin_turn_started_at;
  failure_class = awaiting.failure_class;
  due_at = due_at;
  codex_home = awaiting.codex_home;
  rollout_path = awaiting.rollout_path;
  attempt = awaiting.attempt;
  max_attempts = awaiting.max_attempts;
  consecutive_retry = awaiting.consecutive_retry;
  max_consecutive = awaiting.max_consecutive;
  dispatch_failures = dispatch_failures;
  parent_notified = awaiting.parent_notified;
  goal_limit_restart = awaiting.goal_limit_restart;
}

-- `reconcileStartupState`: a dispatch that no turn answered before the restart is due at once.
unfoldable pub reconcile_startup_state : Time → ThreadState → Reply
reconcile_startup_state now thread = elim thread.awaiting [
  | none ↦ no_change
  | some awaiting ↦
      if awaiting.retry_turn_id == ""
      then stores (record thread {
        awaiting = none;
        pending = some (requeued awaiting now awaiting.dispatch_failures);
      })
      else no_change
]
