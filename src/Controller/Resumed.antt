-- ===== src/Controller/Resumed.antt =====
-- `Resume` of scripts/source/runner.go for a recovery, over the controller of shared_controller.go: what is
-- started is reported as sent.
use codex_auto_retry.Prelude.{refl, arith, String, Bool, List, Bool-cases, inl, inr}
use codex_auto_retry.Model.{action_conversation_continue, action_goal_resume}
use codex_auto_retry.Resume.{ResumeSettings}
use codex_auto_retry.Controller.Errors.{RpcError}
use codex_auto_retry.Controller.Reasons.{dispatch_reasons, preflight_reasons, ipc_reasons}
use codex_auto_retry.Controller.Preflight.{Transport, official_ipc, shared_server, preflight}
use codex_auto_retry.Controller.{
  Log, Reply, answer, refusal, IpcError, owner_missing, other_ipc_error, Codex, loaded_listed,
  thread_resumed, thread_read,
}
use codex_auto_retry.Controller.Accepted.{
  StepPasses, retry_later_result-Passes, dispatched_result-Passes, continue-StepPasses,
  replied-StepPasses,
}
use codex_auto_retry.Controller.Accepted.Subagents.{dispatch_read-StepPasses}
use codex_auto_retry.Controller.Dispatch
use codex_auto_retry.Controller.Dispatch.Channels

module _ (codex : Codex) (req : Dispatch.Request) where
  dispatch_loaded-StepPasses :
      (resumed_status : String) (l : Log)
      → StepPasses (Dispatch.dispatch_loaded codex req resumed_status l).0
  dispatch_loaded-StepPasses resumed_status l =
      continue-StepPasses _ _ (Dispatch.dispatch_read codex req resumed_status)
        (replied-StepPasses req.parent_notified (thread_read req.thread_id)
          (codex.read_thread l req.thread_id) l)
        (λ thread. dispatch_read-StepPasses codex req resumed_status thread _)

  resume_unless_loaded-StepPasses :
      (listed : List String) (l : Log)
      → StepPasses (Dispatch.resume_unless_loaded codex req listed l).0
  resume_unless_loaded-StepPasses listed l = ground (
    arith,
    replied-StepPasses req.parent_notified (thread_resumed req.thread_id)
        (codex.resume l req.thread_id req.settings) l,
  )

  dispatch_over_server-StepPasses :
      (l : Log) → StepPasses (Dispatch.dispatch_over_server codex req l).0
  unfolding Dispatch.dispatch_over_server
  dispatch_over_server-StepPasses l = elim (Bool-cases (codex.dial l)) [
    | inl e ↦ rw e (
        continue-StepPasses _ _ (Dispatch.dispatch_listed codex req)
          (replied-StepPasses req.parent_notified loaded_listed (codex.loaded l) l)
          (λ listed.
            continue-StepPasses _ _ (Dispatch.dispatch_loaded codex req)
              (resume_unless_loaded-StepPasses listed _)
              (λ status. dispatch_loaded-StepPasses status _)))
    | inr e ↦ rw e tt
  ]

  notified_by-StepPasses :
      (parent : String) (reply : Reply IpcError (Unit {0})) (l : Log)
      → StepPasses (Channels.notified_by codex req parent reply l).0
  notified_by-StepPasses parent (answer a) l = tt
  notified_by-StepPasses parent (refusal owner_missing) l =
      retry_later_result-Passes _ req.parent_notified ipc_reasons.1
  notified_by-StepPasses parent (refusal other_ipc_error) l =
      retry_later_result-Passes _ req.parent_notified ipc_reasons.2

  notify_with-StepPasses :
      (parent : String) (settings : Reply RpcError ResumeSettings) (l : Log)
      → StepPasses (Channels.notify_with codex req parent settings l).0
  notify_with-StepPasses parent (refusal e) l =
      retry_later_result-Passes _ req.parent_notified dispatch_reasons.2
  notify_with-StepPasses parent (answer settings) l = notified_by-StepPasses parent _ l

  notify_parent-StepPasses :
      (parent : Reply (Unit {0}) String) (l : Log)
      → StepPasses (Channels.notify_parent codex req parent l).0
  notify_parent-StepPasses (refusal e) l =
      retry_later_result-Passes _ req.parent_notified dispatch_reasons.2
  notify_parent-StepPasses (answer parent) l =
      ground (arith, notify_with-StepPasses parent (codex.settings_for req.codex_home parent) l)

  notify_over_ipc-StepPasses : (l : Log) → StepPasses (Channels.notify_over_ipc codex req l).0
  notify_over_ipc-StepPasses l =
      ground (arith, notify_parent-StepPasses (codex.parent_of req.codex_home req.thread_id) l)

  started_over_ipc-StepPasses :
      (notified : Bool) (reply : Reply IpcError (Unit {0})) (l : Log)
      → StepPasses (Channels.started_over_ipc codex req notified reply l).0
  started_over_ipc-StepPasses notified (refusal owner_missing) l =
      retry_later_result-Passes _ notified ipc_reasons.3
  started_over_ipc-StepPasses notified (refusal other_ipc_error) l =
      retry_later_result-Passes _ notified ipc_reasons.4
  started_over_ipc-StepPasses notified (answer a) l = ground (
    arith,
    dispatched_result-Passes action_goal_resume "official_ipc_goal_turn_started" notified
        ipc_reasons.5 refl refl,
    dispatched_result-Passes action_conversation_continue "official_ipc_turn_started" notified
        ipc_reasons.6 refl refl,
  )

  dispatch_over_ipc-StepPasses : (l : Log) → StepPasses (Channels.dispatch_over_ipc codex req l).0
  unfolding Channels.dispatch_over_ipc
  dispatch_over_ipc-StepPasses l = elim (Bool-cases codex.has_ipc) [
    | inl e ↦ rw e (
        continue-StepPasses _ _ (Channels.start_over_ipc codex req) (notify_over_ipc-StepPasses l)
          (λ notified. started_over_ipc-StepPasses notified _ _))
    | inr e ↦ rw e (retry_later_result-Passes _ req.parent_notified ipc_reasons.0)
  ]

  preflight-StepPasses : (l : Log) → StepPasses (preflight codex req.parent_notified l).0
  unfolding preflight
  preflight-StepPasses l = ground (
    arith,
    retry_later_result-Passes "codex_not_running" req.parent_notified preflight_reasons.0,
    retry_later_result-Passes "shared_app_server_disabled" req.parent_notified preflight_reasons.1,
    retry_later_result-Passes "codex_restart_required" req.parent_notified preflight_reasons.2,
    retry_later_result-Passes "codex_app_not_ready" req.parent_notified preflight_reasons.4,
  )

  dispatch_over-StepPasses :
      (transport : Transport) (l : Log)
      → StepPasses (Channels.dispatch_over codex req transport l).0
  unfolding Channels.dispatch_over
  dispatch_over-StepPasses official_ipc l = dispatch_over_ipc-StepPasses l
  dispatch_over-StepPasses shared_server l = dispatch_over_server-StepPasses l

  pub dispatch-StepPasses : (l : Log) → StepPasses (Channels.dispatch codex req l).0
  unfolding Channels.dispatch
  dispatch-StepPasses l = elim (Bool-cases (codex.supports_home req.codex_home)) [
    | inl e ↦ rw e (
        continue-StepPasses _ _ (Channels.dispatch_over codex req) (preflight-StepPasses l)
          (λ transport. dispatch_over-StepPasses transport _))
    | inr e ↦ rw e (retry_later_result-Passes _ req.parent_notified preflight_reasons.3)
  ]
