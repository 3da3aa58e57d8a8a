-- ===== src/Model.antt =====
-- scripts/source/model.go: the records that the watchdog keeps and the enumerations it branches on.
-- Turn identifiers, event keys, goal states and reasons are texts there and here. Counters are Go's
-- `int`, read as natural numbers.
use codex_auto_retry.Prelude.{ℕ, String, Bool, Option, Time}

pub data FailureClass : Type 0 where
  class_none class_transient class_rate_limit class_server : FailureClass
  class_auth_transient class_auth_limited class_empty_response class_unknown : FailureClass

pub record RetryDecision : Type 0 where
  pub retry : Bool
  pub failure_class : FailureClass
  pub max_attempts : ℕ
  pub max_consecutive : ℕ
  pub reason : String

pub record RelevantEvent : Type 0 where
  pub kind : String
  pub thread_id : String
  pub turn_id : String
  pub timestamp : Time
  pub error_text : String
  pub final_known : Bool
  pub final_present : Bool
  pub abort_reason : String
  pub goal_status : String
  pub goal_updated_at : Time
  pub parent_thread_id : String
  pub recovery_event_id : String

pub record PendingRetry : Type 0 where
  pub event_key : String
  pub failed_turn_id : String
  pub failed_at : Time
  pub origin_turn_started_at : Time
  pub failure_class : FailureClass
  pub due_at : Time
  pub codex_home : String
  pub rollout_path : String
  pub attempt : ℕ
  pub max_attempts : ℕ
  pub consecutive_retry : ℕ
  pub max_consecutive : ℕ
  pub dispatch_failures : ℕ
  pub parent_notified : Bool
  pub goal_limit_restart : Bool

-- `no_action` is the empty `RetryAction("")`.
pub data RetryAction : Type 0 where
  no_action action_dispatching action_goal_resume action_goal_active : RetryAction
  action_conversation_continue action_subagent_continue action_goal_block : RetryAction

pub record AwaitingRetry : Type 0 where
  pub event_key : String
  pub failed_turn_id : String
  pub failed_at : Time
  pub origin_turn_started_at : Time
  pub retry_turn_id : String
  pub failure_class : FailureClass
  pub action : RetryAction
  pub attempt : ℕ
  pub max_attempts : ℕ
  pub consecutive_retry : ℕ
  pub max_consecutive : ℕ
  pub dispatch_failures : ℕ
  pub parent_notified : Bool
  pub goal_limit_restart : Bool
  pub dispatch_started_at : Time
  pub start_deadline : Time
  pub started_at : Time
  pub lifecycle_checks : ℕ
  pub last_lifecycle_check_at : Time
  pub codex_home : String
  pub rollout_path : String

pub record GoalStopRequest : Type 0 where
  pub event_key : String
  pub reason : String
  pub requested_at : Time
  pub due_at : Time
  pub dispatch_failures : ℕ

pub record StoppedRetry : Type 0 where
  pub event_key : String
  pub failed_turn_id : String
  pub failed_at : Time
  pub origin_turn_started_at : Time
  pub failure_class : FailureClass
  pub stopped_at : Time
  pub codex_home : String
  pub rollout_path : String
  pub attempts : ℕ
  pub max_attempts : ℕ
  pub consecutive_retries : ℕ
  pub max_consecutive : ℕ
  pub reason : String
  pub historical : Bool
  pub transport_blocked : Option Bool

pub record ThreadState : Type 0 where
  pub recovery_attempts : ℕ
  pub consecutive_retries : ℕ
  pub recovery_started_at : Time
  pub legacy_failures : ℕ
  pub last_failure_at : Time
  pub last_auto_retry_at : Time
  pub goal_status : String
  pub goal_updated_at : Time
  pub goal_observed_at : Time
  pub goal_held : Bool
  pub last_started_turn_id : String
  pub last_started_at : Time
  pub last_external_turn_id : String
  pub last_external_turn_at : Time
  pub current_turn_progress : Bool
  pub last_aborted_turn_id : String
  pub last_aborted_at : Time
  pub pending : Option PendingRetry
  pub awaiting : Option AwaitingRetry
  pub stopped : Option StoppedRetry
  pub goal_stop : Option GoalStopRequest

pub record FileCursor : Type 0 where
  pub offset : ℕ
  pub last_seen : Time
