-- ===== src/Controller/Accepted/Subagents.antt =====
-- The runner accepts what a dispatch to a child and a dispatch to a thread that is read answer
-- (scripts/source/shared_controller.go).
use codex_auto_retry.Prelude.{
  refl, arith, String, true, List, Option, none, some, ◌==◌, if◌then◌else◌,
}
use codex_auto_retry.Model.{action_subagent_continue}
use codex_auto_retry.Resume.{ResumeSettings}
use codex_auto_retry.Controller.Errors.{RpcError}
use codex_auto_retry.Controller.Reasons.{classify_app_server_error-is_reason, dispatch_reasons}
use codex_auto_retry.Controller.{
  AppThread, Log, Reply, answer, refusal, Codex, more, ◌>>◌, thread_read, loaded_listed,
  thread_resumed, notice_given,
}
use codex_auto_retry.Controller.Dispatch
use codex_auto_retry.Controller.Accepted.{
  StepPasses, retry_later_result-Passes, not_applicable_result-Passes, user_active_result-Passes,
  dispatched_result-Passes, continue-StepPasses, replied-StepPasses,
}
use codex_auto_retry.Controller.Accepted.Threads.{
  start_conversation-StepPasses, dispatch_to_thread-StepPasses,
}

module _ (codex : Codex) (req : Dispatch.Request) where
  resume_with-StepPasses :
      (parent : String) (settings : Reply RpcError ResumeSettings) (l : Log)
      → StepPasses (Dispatch.resume_with codex req.parent_notified parent settings l).0
  resume_with-StepPasses parent (refusal e) l =
      retry_later_result-Passes _ req.parent_notified (classify_app_server_error-is_reason e)
  resume_with-StepPasses parent (answer settings) l =
      continue-StepPasses _ _ (λ _ l'. (more tt, l'))
        (replied-StepPasses req.parent_notified (thread_resumed parent)
          (codex.resume l parent settings) l)
        (λ _. tt)

  resume_parent-StepPasses :
      (parent : String) (listed : List String) (l : Log)
      → StepPasses (Dispatch.resume_parent codex req parent listed l).0
  resume_parent-StepPasses parent listed l =
      ground (arith, resume_with-StepPasses parent (codex.settings_for req.codex_home parent) l)

  inject_listed-StepPasses :
      (parent : String) (listed : List String) (l : Log)
      → StepPasses (Dispatch.inject_listed codex req parent listed l).0
  inject_listed-StepPasses parent listed l =
      continue-StepPasses _ _ (λ _. Dispatch.inject_notice codex req parent)
        (resume_parent-StepPasses parent listed l)
        (λ _.
          replied-StepPasses {A = Unit {0}} req.parent_notified
            (λ _. notice_given parent req.thread_id req.recovery_event_id) _ _)

  inject_subagent_notice-StepPasses :
      (parent : String) (l : Log)
      → StepPasses (Dispatch.inject_subagent_notice codex req parent l).0
  inject_subagent_notice-StepPasses parent l =
      continue-StepPasses _ _ (Dispatch.inject_listed codex req parent)
        (replied-StepPasses req.parent_notified loaded_listed (codex.loaded l) l)
        (λ listed. inject_listed-StepPasses parent listed _)

  tell_parent-StepPasses :
      (parent : String) (l : Log) → StepPasses (Dispatch.tell_parent codex req parent l).0
  tell_parent-StepPasses parent l = ground (
    arith,
    retry_later_result-Passes "subagent_recovery_event_unavailable" req.parent_notified
        dispatch_reasons.2,
    inject_subagent_notice-StepPasses parent l,
  )

  start_unless_active-StepPasses :
      (resumed_status : String) (thread : Option AppThread) (l : Log)
      → StepPasses (Dispatch.start_unless_active codex req resumed_status thread l).0
  start_unless_active-StepPasses resumed_status thread l = ground (
    arith,
    user_active_result-Passes true,
    start_conversation-StepPasses codex req true Dispatch.subagent_resumed l
        (dispatched_result-Passes action_subagent_continue _ true dispatch_reasons.3 refl refl),
  )

  start_subagent-StepPasses :
      (resumed_status : String) (l : Log)
      → StepPasses (Dispatch.start_subagent codex req resumed_status l).0
  start_subagent-StepPasses resumed_status l =
      continue-StepPasses _ _ (Dispatch.start_unless_active codex req resumed_status)
        (replied-StepPasses true (thread_read req.thread_id) (codex.read_thread l req.thread_id) l)
        (λ thread. start_unless_active-StepPasses resumed_status thread _)

  pub dispatch_to_subagent-StepPasses :
      (parent resumed_status : String) (l : Log)
      → StepPasses (Dispatch.dispatch_to_subagent codex req parent resumed_status l).0
  unfolding Dispatch.dispatch_to_subagent
  dispatch_to_subagent-StepPasses parent resumed_status l =
      let sent : StepPasses
          ((Dispatch.tell_parent codex req parent
              >> Dispatch.start_subagent codex req resumed_status)
            l).0 =
        continue-StepPasses _ _ (λ _. Dispatch.start_subagent codex req resumed_status)
          (tell_parent-StepPasses parent l) (λ _. start_subagent-StepPasses resumed_status _) in
      ground (
        arith,
        not_applicable_result-Passes "subagent_non_empty_failure" req.parent_notified
            dispatch_reasons.1,
        sent,
      )

  pub dispatch_read-StepPasses :
      (resumed_status : String) (thread : Option AppThread) (l : Log)
      → StepPasses (Dispatch.dispatch_read codex req resumed_status thread l).0
  unfolding Dispatch.dispatch_read
  dispatch_read-StepPasses resumed_status none l =
      retry_later_result-Passes _ req.parent_notified dispatch_reasons.0
  dispatch_read-StepPasses resumed_status (some thread) l =
      let status = if resumed_status == "" then thread.status else resumed_status in
      ground (
        arith,
        retry_later_result-Passes "thread_state_unavailable" req.parent_notified dispatch_reasons.0,
        user_active_result-Passes req.parent_notified,
        dispatch_to_subagent-StepPasses (Dispatch.app_thread_parent_id thread) status l,
        dispatch_to_thread-StepPasses codex req status l,
      )
