-- ===== src/Runner/Sent.antt =====
-- What `Resume` of scripts/source/runner.go reports of a retry that Codex has taken.
use codex_auto_retry.Prelude.{◌≡◌, arith, Bool, true, false, [], Bool-cases, inl, inr, String}
use codex_auto_retry.Resume.{ResumeSettings}
use codex_auto_retry.Runner.{DispatchResult, ControllerError, is_dispatched}
use codex_auto_retry.Runner.Resume.{Inputs, reported, request_of, dispatch_with, resume}
use codex_auto_retry.Controller.{
  Reply, answer, refusal, Codex, result, error, Step, more, stop, Log,
}
use codex_auto_retry.Controller.Dispatch.Careful.{starts, Tells}
use codex_auto_retry.Controller.Accepted.{StepPasses}
use codex_auto_retry.Controller.Resumed.{dispatch-StepPasses}
use codex_auto_retry.Controller.Once.{dispatch-Tells}
use codex_auto_retry.Daemon.{RetryJob, job_recovery}

-- The job is reported as dispatched.
abbrev pub ReportsSent : Reply ControllerError DispatchResult → Type 0
ReportsSent (answer r) = is_dispatched r.outcome ≡ true
ReportsSent (refusal e) = ⊥

reported-sent :
    (timed_out : Bool) (s : Step (Unit {0})) (l : Log)
    → Tells s l
    → StepPasses s
    → starts l ≡ 1
    → ReportsSent (reported false timed_out s)
reported-sent timed_out (more _) l tells passes started = elim tells [ ]
reported-sent timed_out (stop (error e)) l tells passes started = absurd (omega arith)
reported-sent timed_out (stop (result r)) l tells passes started =
    elim (Bool-cases (is_dispatched r.outcome)) [
      | inl sent ↦ rw passes sent
      | inr other ↦ let none_started : starts l ≡ 0 = rw other at tells in absurd (omega arith)
    ]

module _ (codex : Codex) (inputs : Inputs) (job : RetryJob) where
  dispatch_with-sent :
      (settings : Reply ControllerError ResumeSettings) (prompt : Reply ControllerError String)
      → let r = dispatch_with codex inputs job settings prompt in starts r.1 ≡ 1 → ReportsSent r.0
  dispatch_with-sent (refusal e) prompt started = absurd (omega arith)
  dispatch_with-sent (answer settings) (refusal e) started = absurd (omega arith)
  dispatch_with-sent (answer settings) (answer prompt) started =
      reported-sent inputs.timed_out _ _ (dispatch-Tells codex (request_of job settings prompt))
        (dispatch-StepPasses codex (request_of job settings prompt) []) started

  -- A recovery for which Codex has accepted a turn, or the activation of the thread's goal, is reported as
  -- dispatched, also if the deadline has passed by then: it is never taken for a failure.
  pub resume-ReportsSent :
      job.kind ≡ job_recovery
      → starts (resume codex inputs job).1 ≡ 1
      → ReportsSent (resume codex inputs job).0
  unfolding resume
  resume-ReportsSent recovery started = elim (Bool-cases (inputs.valid_id job.thread_id)) [
    | inl e ↦
        rw (e, recovery)
          (dispatch_with-sent inputs.settings inputs.prompt (rw (e, recovery) at started))
    | inr e ↦ let nothing : starts [] ≡ 1 = rw e at started in absurd (omega arith)
  ]
