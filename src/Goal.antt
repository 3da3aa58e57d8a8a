-- ===== src/Goal.antt =====
-- The goal predicates of scripts/source/goal_recovery.go and subagent_recovery.go: when a goal holds
-- recovery back, which turns join a waiting retry, and which stops belong to a goal.
use codex_auto_retry.Prelude.{
  ℕ, ◌+◌, ◌-◌, ◌*◌, String, Bool, true, false, not, ◌&&◌, ◌||◌, Option, none, some, ◌==◌,
  if◌then◌else◌, Time, second, is_zero, before, after,
}
use codex_auto_retry.Model.{ThreadState, RelevantEvent, PendingRetry, AwaitingRetry, StoppedRetry}
use codex_auto_retry.Policy.{is_empty_response}

abbrev pub goal_empty_response_stop_reason : String
goal_empty_response_stop_reason = "goal_empty_response_limit"

abbrev pub goal_empty_response_block_fail_reason : String
goal_empty_response_block_fail_reason = "goal_empty_response_limit_block_failed"

abbrev pub native_goal_continuation_window : ℕ
native_goal_continuation_window = 5 * second

unfoldable pub is_goal_empty_response_stop_reason : String → Bool
is_goal_empty_response_stop_reason reason =
    reason == goal_empty_response_stop_reason || reason == goal_empty_response_block_fail_reason

abbrev pub has_goal_stop_reason : Option StoppedRetry → Bool
has_goal_stop_reason none = false
has_goal_stop_reason (some stopped) = is_goal_empty_response_stop_reason stopped.reason

unfoldable pub automatic_goal_limit_stopped : ThreadState → Bool
automatic_goal_limit_stopped thread = has_goal_stop_reason thread.stopped

abbrev pub pending_restarts : Option PendingRetry → Bool
pending_restarts none = false
pending_restarts (some pending) = pending.goal_limit_restart

abbrev pub awaiting_restarts : Option AwaitingRetry → Bool
awaiting_restarts none = false
awaiting_restarts (some awaiting) = awaiting.goal_limit_restart

unfoldable pub goal_limit_restart_pending : ThreadState → Bool
goal_limit_restart_pending thread =
    pending_restarts thread.pending || awaiting_restarts thread.awaiting

unfoldable pub goal_blocked_by_failure : Time → Time → Bool
goal_blocked_by_failure goal_updated_at failure_at =
    if is_zero goal_updated_at || is_zero failure_at
    then false
    else not (before goal_updated_at (failure_at - 2 * second))
      && not (after goal_updated_at (failure_at + 5 * second))

unfoldable pub goal_requires_hold : String → Time → Time → Bool
goal_requires_hold status goal_updated_at failure_at =
    if status == "active"
    then false
    else if status == "blocked"
    then not (goal_blocked_by_failure goal_updated_at failure_at)
    else true

unfoldable pub held_conversation_allowed : String → Time → Time → Bool
held_conversation_allowed status goal_updated_at origin_turn_started_at =
    if is_zero origin_turn_started_at || (not (status == "paused") && not (status == "blocked"))
    then false
    else is_zero goal_updated_at || not (after goal_updated_at origin_turn_started_at)

abbrev pub retry_origin : Option PendingRetry → Option AwaitingRetry → Time
retry_origin (some pending) awaiting = pending.origin_turn_started_at
retry_origin none (some awaiting) = awaiting.origin_turn_started_at
retry_origin none none = 0

unfoldable pub held_conversation_still_allowed : ThreadState → String → Time → Bool
held_conversation_still_allowed thread status goal_updated_at =
    held_conversation_allowed status goal_updated_at (retry_origin thread.pending thread.awaiting)

unfoldable pub can_adopt_native_goal_turn : ThreadState → RelevantEvent → Bool
can_adopt_native_goal_turn thread event = elim thread.pending [
  | none ↦ false
  | some pending ↦
      if not (is_empty_response pending.failure_class)
        || not (thread.goal_status == "active")
        || thread.goal_held
        || event.turn_id == ""
        || is_zero pending.failed_at
        || before event.timestamp pending.failed_at
      then false
      else not (after event.timestamp (pending.failed_at + native_goal_continuation_window))
]

unfoldable pub can_adopt_subagent_turn : ThreadState → RelevantEvent → Bool
can_adopt_subagent_turn thread event = elim thread.pending [
  | none ↦ false
  | some pending ↦
      pending.parent_notified
      && is_empty_response pending.failure_class
      && not (event.turn_id == "")
      && not (is_zero pending.failed_at)
      && not (before event.timestamp pending.failed_at)
]

-- The goal status that a refused dispatch reveals, if its reason means that the goal is held.
unfoldable pub goal_hold_status_for_reason : String → Option String
goal_hold_status_for_reason reason =
    if reason == "goal_paused"
    then some "paused"
    else if reason == "goal_completed"
    then some "completed"
    else if reason == "goal_usage_limited"
    then some "usageLimited"
    else if reason == "goal_budget_limited"
    then some "budgetLimited"
    else if reason == "goal_blocked_before_failure"
    then some "blocked"
    else if reason == "goal_status_changed" || reason == "goal_status_unsupported"
    then some ""
    else none
