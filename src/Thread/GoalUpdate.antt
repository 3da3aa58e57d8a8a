-- ===== src/Thread/GoalUpdate.antt =====
-- `handleGoalUpdatedLocked` of scripts/source/goal_recovery.go.
use codex_auto_retry.Prelude.{
  String, Bool, true, false, not, ◌&&◌, ◌||◌, Option, none, some, ◌==◌, is_some, if◌then◌else◌,
  is_zero, before, after, [], ◌∷◌,
}
use codex_auto_retry.Model.{ThreadState, StoppedRetry, RelevantEvent}
use codex_auto_retry.Policy.{one_of}
use codex_auto_retry.Goal.{
  automatic_goal_limit_stopped, goal_limit_restart_pending, goal_requires_hold,
  held_conversation_still_allowed, goal_empty_response_stop_reason,
  goal_empty_response_block_fail_reason,
}
use codex_auto_retry.Thread.{Reply, no_change, stores, cancels_and_stores, reset_retry_state}

-- An update older than the known one, or an observation that is not newer.
unfoldable pub is_stale : ThreadState → RelevantEvent → Bool
is_stale thread event =
    (not (is_zero thread.goal_updated_at) && before event.goal_updated_at thread.goal_updated_at)
    || (not (is_zero thread.goal_observed_at)
        && not (after event.timestamp thread.goal_observed_at))

abbrev pub note_goal : ThreadState → RelevantEvent → ThreadState
note_goal thread event = record thread {
  goal_status = event.goal_status;
  goal_updated_at = event.goal_updated_at;
  goal_observed_at = event.timestamp;
}

-- `thread.Stopped.Reason = reason`
abbrev pub set_stop_reason : String → Option StoppedRetry → Option StoppedRetry
set_stop_reason reason none = none
set_stop_reason reason (some stopped) = some (record stopped { reason = reason })

abbrev pub stop_reason_is : String → Option StoppedRetry → Bool
stop_reason_is reason none = false
stop_reason_is reason (some stopped) = stopped.reason == reason

-- `case "active"` for a goal whose retries the watchdog stopped.
unfoldable pub activate_stopped_goal : String → ThreadState → Reply
activate_stopped_goal previous_status thread =
    if stop_reason_is goal_empty_response_block_fail_reason thread.stopped
    then stores (record thread { goal_held = true })
    else if not (previous_status == "active") && not (is_some thread.goal_stop)
    then stores (record thread {
      stopped = none;
      recovery_attempts = 0;
      consecutive_retries = 0;
      current_turn_progress = false;
      goal_held = false;
    })
    else stores (record thread { goal_held = false })

-- The other cases: the goal is no longer active, so its stop is done.
unfoldable pub settle_stopped_goal : ThreadState → Reply
settle_stopped_goal thread = cancels_and_stores (record thread {
  goal_stop = none;
  stopped = set_stop_reason goal_empty_response_stop_reason thread.stopped;
  goal_held = true;
})

unfoldable pub apply_goal_hold : RelevantEvent → ThreadState → Reply
apply_goal_hold event noted =
    let held = goal_requires_hold event.goal_status event.goal_updated_at noted.last_failure_at in
    let thread = record noted { goal_held = held } in
    if not held || held_conversation_still_allowed thread event.goal_status event.goal_updated_at
    then stores thread
    else cancels_and_stores (reset_retry_state thread)

unfoldable pub is_settled_status : String → Bool
unfolding one_of
is_settled_status status =
    one_of status
      ("blocked" ∷ "paused" ∷ "completed" ∷ "complete" ∷ "usageLimited" ∷ "budgetLimited" ∷ [])

unfoldable pub handle_goal_updated : RelevantEvent → ThreadState → Reply
handle_goal_updated event entry =
    let thread = note_goal entry event in
    if is_stale entry event
    then no_change
    else if goal_limit_restart_pending thread && event.goal_status == "blocked"
    then stores (record thread { goal_held = true })
    else if automatic_goal_limit_stopped thread && event.goal_status == "active"
    then activate_stopped_goal entry.goal_status thread
    else if automatic_goal_limit_stopped thread && is_settled_status event.goal_status
    then settle_stopped_goal thread
    else apply_goal_hold event thread
