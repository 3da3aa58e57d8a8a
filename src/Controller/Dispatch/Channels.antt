-- ===== src/Controller/Dispatch/Channels.antt =====
-- `Dispatch` of scripts/source/shared_controller.go: one retry over the channel that is found, the shared app-server
-- or the desktop's own IPC.
use codex_auto_retry.Prelude.{String, Bool, true, not, ◌&&◌, ◌∷◌, ◌==◌, if◌then◌else◌}
use codex_auto_retry.Model.{action_conversation_continue, action_goal_resume}
use codex_auto_retry.Policy.{is_empty_response}
use codex_auto_retry.Events.Notices.{is_recovery_event_id}
use codex_auto_retry.Resume.{ResumeSettings}
use codex_auto_retry.Controller.Errors.{RpcError}
use codex_auto_retry.Controller.Preflight.{Transport, official_ipc, shared_server, preflight}
use codex_auto_retry.Controller.{
  turn_started, notice_given, refused, Reply, answer, refusal, IpcError, owner_missing,
  other_ipc_error, Codex, result, more, stop, Exec, ◌>>=◌, return, retry_later_result,
  dispatched_result,
}
use codex_auto_retry.Controller.Dispatch.{Request, dispatch_over_server}

module _ (codex : Codex) where
  abbrev pub ipc_refusal : String → String → IpcError → String
  ipc_refusal without_owner otherwise owner_missing = without_owner
  ipc_refusal without_owner otherwise other_ipc_error = otherwise

  abbrev pub notified_by : Request → String → Reply IpcError (Unit {0}) → Exec Bool
  notified_by req parent (answer _) log =
      (more true, notice_given parent req.thread_id req.recovery_event_id ∷ log)
  notified_by req parent (refusal e) log = (
    stop (
        result (
          retry_later_result
            (ipc_refusal "subagent_parent_owner_unavailable" "subagent_parent_recovery_failed" e)
            req.parent_notified)),
    refused ∷ log,
  )

  abbrev pub notify_with : Request → String → Reply RpcError ResumeSettings → Exec Bool
  notify_with req parent (refusal e) =
      return (result (retry_later_result "subagent_recovery_event_unavailable" req.parent_notified))
  notify_with req parent (answer settings) = λ log.
      notified_by req parent
        (codex.ipc_notify log parent req.thread_id req.recovery_event_id settings) log

  -- Whether the parent has been told, `findThreadParentID` first.
  abbrev pub notify_parent : Request → Reply (Unit {0}) String → Exec Bool
  notify_parent req (refusal _) =
      return (result (retry_later_result "subagent_recovery_event_unavailable" req.parent_notified))
  notify_parent req (answer parent) =
      if parent == ""
      then (λ log. (more req.parent_notified, log))
      else notify_with req parent (codex.settings_for req.codex_home parent)

  abbrev pub notify_over_ipc : Request → Exec Bool
  notify_over_ipc req =
      if is_empty_response req.failure_class
        && not req.parent_notified
        && is_recovery_event_id req.recovery_event_id
      then notify_parent req (codex.parent_of req.codex_home req.thread_id)
      else (λ log. (more req.parent_notified, log))

  abbrev pub started_over_ipc : Request → Bool → Reply IpcError (Unit {0}) → Exec (Unit {0})
  started_over_ipc req notified (refusal e) log = (
    stop (
        result (
          retry_later_result
            (ipc_refusal "codex_thread_owner_unavailable" "codex_background_dispatch_failed" e)
            notified)),
    refused ∷ log,
  )
  started_over_ipc req notified (answer _) log = (
    stop (
        result (
          if req.goal_limit_restart
          then dispatched_result action_goal_resume "official_ipc_goal_turn_started" notified
          else dispatched_result action_conversation_continue "official_ipc_turn_started"
              notified)),
    turn_started req.thread_id ∷ log,
  )

  abbrev pub start_over_ipc : Request → Bool → Exec (Unit {0})
  start_over_ipc req notified log =
      started_over_ipc req notified (codex.ipc_start_turn log req.thread_id req.settings) log

  unfoldable pub dispatch_over_ipc : Request → Exec (Unit {0})
  unfolding is_recovery_event_id
  dispatch_over_ipc req =
      if not codex.has_ipc
      then return
          (result (retry_later_result "codex_background_channel_unavailable" req.parent_notified))
      else (notify_over_ipc req >>= start_over_ipc req)

  unfoldable pub dispatch_over : Request → Transport → Exec (Unit {0})
  unfolding dispatch_over_server dispatch_over_ipc
  dispatch_over req official_ipc = dispatch_over_ipc req
  dispatch_over req shared_server = dispatch_over_server codex req

  unfoldable pub dispatch : Request → Exec (Unit {0})
  unfolding dispatch_over preflight
  dispatch req =
      if not (codex.supports_home req.codex_home)
      then return (result (retry_later_result "codex_home_not_shared" req.parent_notified))
      else (preflight codex req.parent_notified >>= dispatch_over req)
