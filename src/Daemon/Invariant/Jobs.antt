-- ===== src/Daemon/Invariant/Jobs.antt =====
-- The start and the end of a job (scripts/source/daemon.go, goal_recovery.go) keep every thread
-- well-formed.
use codex_auto_retry.Prelude.{
  String, Bool, if◌then◌else◌, true, false, not, none, Option, arith, Time,
}
use codex_auto_retry.Model.{ThreadState}
use codex_auto_retry.Config.{Config}
use codex_auto_retry.Runner.{DispatchResult, ControllerError, controller_failure_reason}
use codex_auto_retry.Thread.{reset_retry_state}
use codex_auto_retry.Thread.WellFormed.{IsWellFormed, Keeps}
use codex_auto_retry.Thread.WellFormed.Commands.{reschedule_awaiting-Keeps}
use codex_auto_retry.Daemon.{Daemon, RetryJob, thread_of}
use codex_auto_retry.Daemon.Job.{
  begin_job, skip_retry, accept_dispatch, settle_thread, settle_controller,
  record_controller_success, finish_job, end_job, map_awaiting, note_parent, awaits_job,
}
use codex_auto_retry.Daemon.GoalBlock.{
  begin_goal_block, reschedule_goal_block, goal_blocked, settle_goal_block, finish_goal_block,
  end_goal_block, goal_block_wanted,
}
use codex_auto_retry.Daemon.Status.{persist_state, write_status}
use codex_auto_retry.Daemon.Invariant.Controller.{same_threads, persist_state-threads}
use codex_auto_retry.Daemon.Invariant.Loops.{
  AllWellFormed, choose-AllWellFormed, apply_reply-AllWellFormed, thread_of-IsWellFormed,
}

-- Both files are written for a current result, the status file for a stale one.
written-AllWellFormed :
    (current state_written status_written : Bool) (d : Daemon)
    → AllWellFormed d
    → AllWellFormed
        (write_status status_written (if current then persist_state state_written d else d))
unfolding write_status
written-AllWellFormed current state_written status_written d h =
    choose-AllWellFormed current (persist_state state_written d) d
      (same_threads (persist_state state_written d) d (persist_state-threads state_written d) h) h

pub begin_job-AllWellFormed :
    (job : RetryJob) (d : Daemon) → AllWellFormed d → AllWellFormed (begin_job job d).0
unfolding begin_job
begin_job-AllWellFormed job d h = ground arith

skip_retry-IsWellFormed :
    (result : DispatchResult) (t : ThreadState) → IsWellFormed (skip_retry result t)
unfolding skip_retry reset_retry_state
skip_retry-IsWellFormed result t = ground arith

accept_dispatch-IsWellFormed :
    (config : Config) (at : Time) (result : DispatchResult) (t : ThreadState)
    → IsWellFormed t
    → IsWellFormed (accept_dispatch config at result t)
unfolding accept_dispatch
accept_dispatch-IsWellFormed config at result t v = ground arith

unfailed-IsWellFormed :
    (t : ThreadState)
    → IsWellFormed t
    → IsWellFormed
        (record t { awaiting = map_awaiting (λ a. record a { dispatch_failures = 0 }) t.awaiting })
unfailed-IsWellFormed t v = ground arith

noted-IsWellFormed :
    (result : DispatchResult) (t : ThreadState)
    → IsWellFormed t
    → IsWellFormed (record t { awaiting = map_awaiting (note_parent result) t.awaiting })
noted-IsWellFormed result t v = ground arith

settle_thread-Keeps :
    (config : Config) (at : Time) (result : DispatchResult) (error : Option ControllerError)
    (t : ThreadState)
    → IsWellFormed t
    → Keeps (settle_thread config at result error t)
unfolding settle_thread
settle_thread-Keeps config at result error t v = ground (
  arith,
  reschedule_awaiting-Keeps config at t v (controller_failure_reason result error) true,
  reschedule_awaiting-Keeps config at _ (unfailed-IsWellFormed t v)
      (controller_failure_reason result none) false,
  skip_retry-IsWellFormed result t,
  accept_dispatch-IsWellFormed config at result t v,
)

settle_controller-AllWellFormed :
    (result : DispatchResult) (error : Option ControllerError) (d : Daemon)
    → AllWellFormed d
    → AllWellFormed (settle_controller result error d)
unfolding settle_controller record_controller_success
settle_controller-AllWellFormed result error d h = ground arith

pub finish_job-AllWellFormed :
    (job : RetryJob) (at : Time) (result : DispatchResult) (error : Option ControllerError)
    (d : Daemon)
    → AllWellFormed d
    → AllWellFormed (finish_job job at result error d)
unfolding finish_job
finish_job-AllWellFormed job at result error d h =
    choose-AllWellFormed (not (awaits_job job (thread_of d job.thread_id).awaiting)) _ _ h (
      apply_reply-AllWellFormed _ job.thread_id _ (settle_controller-AllWellFormed result error _ h)
        (settle_thread-Keeps d.config at result error _
          (noted-IsWellFormed result _ (thread_of-IsWellFormed d job.thread_id h))))

pub end_job-AllWellFormed :
    (job : RetryJob) (at : Time) (result : DispatchResult) (error : Option ControllerError)
    (state_written status_written : Bool) (d : Daemon)
    → AllWellFormed d
    → AllWellFormed (end_job job at result error state_written status_written d)
unfolding end_job
end_job-AllWellFormed job at result error state_written status_written d h =
    written-AllWellFormed (awaits_job job (thread_of d job.thread_id).awaiting) state_written
      status_written (finish_job job at result error d)
      (finish_job-AllWellFormed job at result error d h)

pub begin_goal_block-AllWellFormed :
    (job : RetryJob) (d : Daemon) → AllWellFormed d → AllWellFormed (begin_goal_block job d).0
unfolding begin_goal_block
begin_goal_block-AllWellFormed job d h = ground arith

reschedule_goal_block-Keeps :
    (config : Config) (at : Time) (reason : String) (t : ThreadState)
    → IsWellFormed t
    → Keeps (reschedule_goal_block config at reason t)
unfolding reschedule_goal_block
reschedule_goal_block-Keeps config at reason t v = ground arith

goal_blocked-IsWellFormed :
    (at : Time) (result : DispatchResult) (t : ThreadState)
    → IsWellFormed t
    → IsWellFormed (goal_blocked at result t)
unfolding goal_blocked
goal_blocked-IsWellFormed at result t v = ground arith

settle_goal_block-Keeps :
    (config : Config) (at : Time) (result : DispatchResult) (error : Option ControllerError)
    (t : ThreadState)
    → IsWellFormed t
    → Keeps (settle_goal_block config at result error t)
unfolding settle_goal_block
settle_goal_block-Keeps config at result error t v = ground (
  arith,
  reschedule_goal_block-Keeps config at (controller_failure_reason result error) t v,
  reschedule_goal_block-Keeps config at "controller_invalid_result" t v,
  goal_blocked-IsWellFormed at result t v,
)

pub finish_goal_block-AllWellFormed :
    (job : RetryJob) (at : Time) (result : DispatchResult) (error : Option ControllerError)
    (d : Daemon)
    → AllWellFormed d
    → AllWellFormed (finish_goal_block job at result error d)
unfolding finish_goal_block
finish_goal_block-AllWellFormed job at result error d h =
    choose-AllWellFormed (not (goal_block_wanted job (thread_of d job.thread_id))) _ _ h (
      apply_reply-AllWellFormed _ job.thread_id _ h (
        settle_goal_block-Keeps d.config at result error _
          (thread_of-IsWellFormed d job.thread_id h)))

pub end_goal_block-AllWellFormed :
    (job : RetryJob) (at : Time) (result : DispatchResult) (error : Option ControllerError)
    (state_written status_written : Bool) (d : Daemon)
    → AllWellFormed d
    → AllWellFormed (end_goal_block job at result error state_written status_written d)
unfolding end_goal_block
end_goal_block-AllWellFormed job at result error state_written status_written d h =
    written-AllWellFormed (goal_block_wanted job (thread_of d job.thread_id)) state_written
      status_written (finish_goal_block job at result error d)
      (finish_goal_block-AllWellFormed job at result error d h)
