-- ===== src/Controller/Accepted.antt =====
-- The runner accepts what the controller of scripts/source/shared_controller.go answers.
pub mod Threads
pub mod Subagents
use codex_auto_retry.Prelude.{
  ◌≡◌, refl, arith, String, Bool, true, false, List, ◌∷◌, Option, none, some, ◌==◌, if◌then◌else◌,
  Bool-cases, inl, inr, eq_iff,
}
use codex_auto_retry.Model.{
  RetryAction, action_conversation_continue, action_goal_resume, action_subagent_continue,
}
use codex_auto_retry.Resume.{ResumeSettings}
use codex_auto_retry.Runner.{
  DispatchResult, validate_dispatch_result_for_job, validate_dispatch_result, is_dispatch_action,
  is_goal_block,
}
use codex_auto_retry.Controller.Goals.{AppGoal, app_goal_hold_reason}
use codex_auto_retry.Controller.Errors.{RpcError, empty_app_input_unsupported}
use codex_auto_retry.Controller.Reasons.{
  is_reason, classify_app_server_error-is_reason, app_goal_hold_reason-is_reason, dispatch_reasons,
  preflight_reasons,
}
use codex_auto_retry.Controller.{
  AppThread, Entry, Log, Reply, answer, refusal, Codex, result, error, Step, more, stop, Exec,
  continue, ◌>>=◌, ◌>>◌, return, retry_later_result, not_applicable_result, user_active_result,
  dispatched_result, replied, turn_started, goal_read, thread_read, loaded_listed, thread_resumed,
  notice_given, refused,
}
use codex_auto_retry.Controller.Dispatch

-- A result that the runner returns as it is.
abbrev pub Passes : DispatchResult → Type 0
Passes r = validate_dispatch_result_for_job false r ≡ some r

abbrev pub StepPasses : {A : Type 0} → Step A → Type 0
StepPasses (more _) = Unit
StepPasses (stop (error e)) = Unit
StepPasses (stop (result r)) = Passes r

pub retry_later_result-Passes :
    (reason : String) (notified : Bool)
    → is_reason reason ≡ true
    → Passes (retry_later_result reason notified)
unfolding validate_dispatch_result_for_job validate_dispatch_result is_reason
retry_later_result-Passes reason notified ok = ground (arith, ok)

pub not_applicable_result-Passes :
    (reason : String) (notified : Bool)
    → is_reason reason ≡ true
    → Passes (not_applicable_result reason notified)
unfolding validate_dispatch_result_for_job validate_dispatch_result is_reason
not_applicable_result-Passes reason notified ok = ground (arith, ok)

pub user_active_result-Passes : (notified : Bool) → Passes (user_active_result notified)
unfolding validate_dispatch_result_for_job validate_dispatch_result is_reason
user_active_result-Passes notified = ground (arith, preflight_reasons)

pub dispatched_result-Passes :
    (act : RetryAction) (reason : String) (notified : Bool)
    → is_reason reason ≡ true
    → is_dispatch_action act ≡ true
    → is_goal_block act ≡ false
    → Passes (dispatched_result act reason notified)
unfolding validate_dispatch_result_for_job validate_dispatch_result is_reason
dispatched_result-Passes act reason notified ok sends recovers = ground (arith, ok, sends, recovers)

pub continue-StepPasses :
    {A B : Type 0} (r : Step A) (l : Log) (f : A → Exec B)
    → StepPasses r
    → ((a : A) → StepPasses (f a l).0)
    → StepPasses (continue r l f).0
continue-StepPasses (more a) l f passes go = go a
continue-StepPasses (stop (error e)) l f passes go = tt
continue-StepPasses (stop (result r)) l f passes go = passes

pub replied-StepPasses :
    {A : Type 0} (notified : Bool) (entry : A → Entry) (reply : Reply RpcError A) (l : Log)
    → StepPasses (replied notified entry reply l).0
replied-StepPasses notified entry (answer a) l = tt
replied-StepPasses notified entry (refusal e) l =
    retry_later_result-Passes _ notified (classify_app_server_error-is_reason e)
