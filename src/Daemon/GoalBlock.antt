-- ===== src/Daemon/GoalBlock.antt =====
-- `runGoalBlockJob` and `rescheduleGoalBlockLocked` of scripts/source/goal_recovery.go: the job that marks
-- a goal as blocked.
use codex_auto_retry.Prelude.{
  ◌+◌, String, Bool, true, false, not, ◌&&◌, ◌||◌, Option, none, some, ◌==◌, leb, Time, assign,
  delete, is_some, if◌then◌else◌,
}
use codex_auto_retry.Model.{ThreadState, GoalStopRequest}
use codex_auto_retry.Config.{Config}
use codex_auto_retry.Policy.{retry_delay, controller_failure_needs_action}
use codex_auto_retry.Goal.{
  automatic_goal_limit_stopped, goal_empty_response_stop_reason,
  goal_empty_response_block_fail_reason,
}
use codex_auto_retry.Runner.{
  DispatchResult, is_dispatched, is_goal_block, is_deferral, ControllerError,
  controller_failure_reason,
}
use codex_auto_retry.Thread.{Reply, no_change, stores}
use codex_auto_retry.Thread.Awaiting.{fails_with}
use codex_auto_retry.Thread.GoalUpdate.{set_stop_reason}
use codex_auto_retry.Daemon.{Daemon, RetryJob, thread_of, apply_reply}
use codex_auto_retry.Daemon.Status.{persist_state, write_status}

abbrev pub stop_is_for : RetryJob → Option GoalStopRequest → Bool
stop_is_for job none = false
stop_is_for job (some request) = request.event_key == job.event_key

-- The goal still waits for this job.
unfoldable pub goal_block_wanted : RetryJob → ThreadState → Bool
goal_block_wanted job thread =
    stop_is_for job thread.goal_stop && automatic_goal_limit_stopped thread

unfoldable pub begin_goal_block : RetryJob → Daemon → Daemon × Bool
begin_goal_block job d =
    if goal_block_wanted job (thread_of d job.thread_id)
    then (record d { active_ctx = assign d.active_ctx job.thread_id false }, true)
    else (record d { active = delete d.active job.thread_id }, false)

-- `rescheduleGoalBlockLocked`
unfoldable pub reschedule_goal_block : Config → Time → String → ThreadState → Reply
reschedule_goal_block config now reason thread = elim thread.goal_stop [
  | none ↦ no_change
  | some request ↦
      let failures = request.dispatch_failures + 1 in
      let needs_action = controller_failure_needs_action reason in
      if needs_action || leb config.controller_failure_limit failures
      then fails_with
          (record thread {
            goal_stop = none;
            goal_held = true;
            stopped =
                set_stop_reason
                  (if needs_action then reason else goal_empty_response_block_fail_reason)
                  thread.stopped;
          })
          reason
      else stores (record thread {
        goal_stop = some (record request {
          dispatch_failures = failures;
          due_at = now + retry_delay failures config;
        });
      })
]

-- The status that the goal turned out to have.
unfoldable pub blocked_goal_status : String → String
blocked_goal_status reason =
    if reason == "goal_already_paused"
    then "paused"
    else if reason == "goal_already_completed"
    then "completed"
    else if reason == "goal_already_usage_limited"
    then "usageLimited"
    else if reason == "goal_already_budget_limited"
    then "budgetLimited"
    else "blocked"

unfoldable pub goal_blocked : Time → DispatchResult → ThreadState → ThreadState
goal_blocked finished_at result thread = record thread {
  goal_stop = none;
  stopped = set_stop_reason goal_empty_response_stop_reason thread.stopped;
  goal_status = blocked_goal_status result.reason;
  goal_observed_at = finished_at;
  goal_held = true;
}

abbrev pub block_deferred : DispatchResult → Option ControllerError → Bool
block_deferred result error = is_some error || is_deferral result.outcome

abbrev pub block_done : DispatchResult → Bool
block_done result = is_dispatched result.outcome && is_goal_block result.action

unfoldable pub settle_goal_block :
    Config → Time → DispatchResult → Option ControllerError → ThreadState → Reply
settle_goal_block config finished_at result error thread =
    if block_deferred result error
    then reschedule_goal_block config finished_at (controller_failure_reason result error) thread
    else if block_done result
    then stores (goal_blocked finished_at result thread)
    else reschedule_goal_block config finished_at "controller_invalid_result" thread

abbrev pub block_controller_state : DispatchResult → Option ControllerError → String → String
block_controller_state result error current =
    if block_deferred result error
    then controller_failure_reason result error
    else if block_done result
    then "ready"
    else current

unfoldable pub finish_goal_block :
    RetryJob → Time → DispatchResult → Option ControllerError → Daemon → Daemon
finish_goal_block job finished_at result error d =
    let id = job.thread_id in
    let released = record d { active = delete d.active id; active_ctx = delete d.active_ctx id } in
    let thread = thread_of d id in
    if not (goal_block_wanted job thread)
    then released
    else apply_reply
        (record released {
          controller_state = block_controller_state result error d.controller_state;
        })
        id (settle_goal_block d.config finished_at result error thread)

-- The second locked part as a whole, as in `end_job`.
unfoldable pub end_goal_block :
    RetryJob → Time → DispatchResult → Option ControllerError → Bool → Bool → Daemon → Daemon
unfolding persist_state write_status
end_goal_block job finished_at result error state_written status_written d =
    let finished = finish_goal_block job finished_at result error d in
    write_status status_written (
      if goal_block_wanted job (thread_of d job.thread_id)
      then persist_state state_written finished
      else finished)
