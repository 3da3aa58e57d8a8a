-- ===== src/Runner/Resume.antt =====
-- `Resume` of scripts/source/runner.go: a job, over the controller. The file of the settings, the prompt and
-- whether the deadline of 30 seconds has passed are arguments; `valid_id` is the pattern of a thread.
use codex_auto_retry.Prelude.{String, Bool, true, false, not, [], Option, none, some, if◌then◌else◌}
use codex_auto_retry.Resume.{ResumeSettings}
use codex_auto_retry.Runner.{
  DispatchResult, ControllerError, controller_timeout, invalid_result, other_error,
  validate_dispatch_result_for_job,
}
use codex_auto_retry.Controller.{
  Reply, answer, refusal, Codex, result, error, Step, more, stop, Log,
}
use codex_auto_retry.Controller.Dispatch.{Request}
use codex_auto_retry.Controller.Dispatch.Channels.{dispatch}
use codex_auto_retry.Controller.BlockGoal.{block_goal}
use codex_auto_retry.Daemon.{RetryJob, RetryJobKind, job_recovery, job_goal_block}

pub record Inputs : Type 0 where
  pub valid_id : String → Bool
  pub settings : Reply ControllerError ResumeSettings
  pub prompt : Reply ControllerError String
  pub timed_out : Bool

abbrev pub accepted : Option DispatchResult → Reply ControllerError DispatchResult
accepted none = refusal invalid_result
accepted (some r) = answer r

-- What the runner makes of the controller's answer.
abbrev pub reported : Bool → Bool → Step (Unit {0}) → Reply ControllerError DispatchResult
reported for_goal_block timed_out (more _) = refusal other_error
reported for_goal_block timed_out (stop (error e)) =
    refusal (if timed_out then controller_timeout else e)
reported for_goal_block timed_out (stop (result r)) =
    accepted (validate_dispatch_result_for_job for_goal_block r)

abbrev pub request_of : RetryJob → ResumeSettings → String → Request
request_of job settings prompt = record {
  thread_id = job.thread_id;
  prompt = prompt;
  settings = settings;
  failed_at = job.failed_at;
  origin_turn_started_at = job.origin_turn_started_at;
  recovery_event_id = job.recovery_event_id;
  parent_notified = job.parent_notified;
  goal_limit_restart = job.goal_limit_restart;
  failure_class = job.failure_class;
  codex_home = job.codex_home;
}

abbrev pub loaded_settings : Reply ControllerError ResumeSettings → Option ResumeSettings
loaded_settings (answer settings) = some settings
loaded_settings (refusal e) = none

module _ (codex : Codex) (inputs : Inputs) (job : RetryJob) where
  abbrev pub dispatch_with :
      Reply ControllerError ResumeSettings
      → Reply ControllerError String
      → Reply ControllerError DispatchResult × Log
  dispatch_with (refusal e) prompt = (refusal e, [])
  dispatch_with (answer settings) (refusal e) = (refusal e, [])
  dispatch_with (answer settings) (answer prompt) =
      let r = dispatch codex (request_of job settings prompt) [] in
      (reported false inputs.timed_out r.0, r.1)

  abbrev pub block_with : Reply ControllerError DispatchResult × Log
  block_with =
      let r = block_goal codex job.thread_id (loaded_settings inputs.settings) job.codex_home [] in
      (reported true inputs.timed_out r.0, r.1)

  abbrev pub resume_kind : RetryJobKind → Reply ControllerError DispatchResult × Log
  resume_kind job_goal_block = block_with
  resume_kind job_recovery = dispatch_with inputs.settings inputs.prompt

  unfoldable pub resume : Reply ControllerError DispatchResult × Log
  unfolding dispatch block_goal
  resume =
      if not (inputs.valid_id job.thread_id)
      then (refusal other_error, [])
      else resume_kind job.kind
