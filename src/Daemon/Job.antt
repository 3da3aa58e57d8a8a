-- ===== src/Daemon/Job.antt =====
-- `runJob` of scripts/source/daemon.go, in its two locked parts: before the dispatch, and after it. Also
-- `recordControllerSuccessLocked` of transport_recovery.go.
use codex_auto_retry.Prelude.{
  ◌+◌, ◌*◌, Bool, true, false, not, ◌&&◌, ◌||◌, Option, none, some, ◌==◌, Time, second, assign,
  delete, eqb, if◌then◌else◌, is_some,
}
use codex_auto_retry.Model.{ThreadState, AwaitingRetry}
use codex_auto_retry.Config.{Config}
use codex_auto_retry.Goal.{held_conversation_still_allowed, goal_hold_status_for_reason}
use codex_auto_retry.Runner.{
  DispatchResult, DispatchOutcome, user_active, retry_later, not_applicable, is_dispatched,
  ControllerError, controller_failure_reason,
}
use codex_auto_retry.Thread.{Reply, stores, reset_retry_state}
use codex_auto_retry.Thread.Awaiting.{reschedule_awaiting}
use codex_auto_retry.Daemon.{Daemon, RetryJob, thread_of, apply_reply}
use codex_auto_retry.Daemon.Status.{persist_state, write_status}

abbrev pub awaits_job : RetryJob → Option AwaitingRetry → Bool
awaits_job job none = false
awaits_job job (some awaiting) =
    awaiting.event_key == job.event_key && eqb awaiting.attempt job.attempt

-- The job may start: its thread still waits for it, and the goal does not hold it back.
unfoldable pub may_start : RetryJob → ThreadState → Bool
may_start job thread =
    awaits_job job thread.awaiting
    && not (
        thread.goal_held
        && not job.goal_limit_restart
        && not (held_conversation_still_allowed thread thread.goal_status thread.goal_updated_at))

-- The Boolean tells whether the dispatch is made.
unfoldable pub begin_job : RetryJob → Daemon → Daemon × Bool
begin_job job d =
    if may_start job (thread_of d job.thread_id)
    then (record d { active_ctx = assign d.active_ctx job.thread_id false }, true)
    else (record d { active = delete d.active job.thread_id }, false)

unfoldable pub record_controller_success : Daemon → Daemon
record_controller_success d =
    if d.config.shared_app_server_enabled && not (d.controller_state == "official_ipc_ready")
    then record d { controller_state = "ready" }
    else d

abbrev pub map_awaiting :
    (AwaitingRetry → AwaitingRetry) → Option AwaitingRetry → Option AwaitingRetry
map_awaiting f none = none
map_awaiting f (some awaiting) = some (f awaiting)

abbrev pub note_parent : DispatchResult → AwaitingRetry → AwaitingRetry
note_parent result awaiting = record awaiting {
  parent_notified = if result.parent_notified then true else awaiting.parent_notified;
}

-- `outcomeNotApplicable`
unfoldable pub skip_retry : DispatchResult → ThreadState → ThreadState
skip_retry result thread =
    let cleared = reset_retry_state thread in
    elim (goal_hold_status_for_reason result.reason) [
      | none ↦ cleared
      | some status ↦ record cleared {
        goal_held = true;
        goal_status = if status == "" then cleared.goal_status else status;
      }
    ]

-- The dispatch was accepted: the turn has until the deadline to start.
unfoldable pub accept_dispatch : Config → Time → DispatchResult → ThreadState → ThreadState
accept_dispatch config finished_at result thread = record thread {
  awaiting =
      map_awaiting
        (λ awaiting. record awaiting {
          action = result.action;
          dispatch_failures = 0;
          start_deadline = finished_at + config.start_ack_timeout_seconds * second;
        })
        thread.awaiting;
}

abbrev pub is_retry_later : DispatchOutcome → Bool
is_retry_later retry_later = true
is_retry_later _ = false

-- What the result does to the thread, whose awaited retry is the job's.
unfoldable pub settle_thread :
    Config → Time → DispatchResult → Option ControllerError → ThreadState → Reply
settle_thread config finished_at result error thread =
    if is_some error || is_retry_later result.outcome
    then reschedule_awaiting config thread finished_at (controller_failure_reason result error) true
    else elim result.outcome [
      | user_active ↦
          reschedule_awaiting config
            (record thread {
              awaiting = map_awaiting (λ a. record a { dispatch_failures = 0 }) thread.awaiting;
            })
            finished_at (controller_failure_reason result none) false
      | not_applicable ↦ stores (skip_retry result thread)
      | _ ↦ stores (accept_dispatch config finished_at result thread)
    ]

abbrev pub official_ipc_started : DispatchResult → Option ControllerError → Bool
official_ipc_started result error =
    not (is_some error)
    && is_dispatched result.outcome
    && (result.reason == "official_ipc_turn_started"
        || result.reason == "official_ipc_goal_turn_started")

-- What the result tells about the controller.
unfoldable pub settle_controller : DispatchResult → Option ControllerError → Daemon → Daemon
settle_controller result error d =
    if is_some error || is_retry_later result.outcome
    then record d { controller_state = controller_failure_reason result error }
    else if official_ipc_started result error
    then record_controller_success (record d { controller_state = "official_ipc_ready" })
    else record_controller_success d

unfoldable pub finish_job :
    RetryJob → Time → DispatchResult → Option ControllerError → Daemon → Daemon
finish_job job finished_at result error d =
    let id = job.thread_id in
    let released = record d { active = delete d.active id; active_ctx = delete d.active_ctx id } in
    let thread = thread_of d id in
    if not (awaits_job job thread.awaiting)
    then released
    else apply_reply (settle_controller result error released) id (
        settle_thread d.config finished_at result error
          (record thread { awaiting = map_awaiting (note_parent result) thread.awaiting }))

-- The second locked part as a whole: a stale result writes the status file only. The Booleans tell
-- whether the state and the status could be written.
unfoldable pub end_job :
    RetryJob → Time → DispatchResult → Option ControllerError → Bool → Bool → Daemon → Daemon
unfolding persist_state write_status
end_job job finished_at result error state_written status_written d =
    let finished = finish_job job finished_at result error d in
    write_status status_written (
      if awaits_job job (thread_of d job.thread_id).awaiting
      then persist_state state_written finished
      else finished)
