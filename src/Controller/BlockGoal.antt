-- ===== src/Controller/BlockGoal.antt =====
-- `BlockGoal` of scripts/source/shared_controller.go: the goal of a thread is marked as blocked. And the other
-- questions over the channel that is found: `Readiness` and `Prepare`.
use codex_auto_retry.Prelude.{
  String, false, not, ◌||◌, List, Option, none, some, ◌==◌, if◌then◌else◌,
}
use codex_auto_retry.Model.{action_goal_block}
use codex_auto_retry.Runner.{
  DispatchResult, ControllerError, server_unavailable, server_disabled, restart_required,
}
use codex_auto_retry.Resume.{ResumeSettings}
use codex_auto_retry.Controller.Goals.{AppGoal}
use codex_auto_retry.Controller.Preflight.{Transport, official_ipc, shared_server, preflight}
use codex_auto_retry.Controller.{
  loaded_listed, thread_resumed, goal_read, goal_set, Log, Reply, answer, refusal, Codex, result,
  error, Step, more, stop, Exec, ◌>>=◌, ◌>>◌, return, retry_later_result, dispatched_result, ask,
}
use codex_auto_retry.Controller.Dispatch.{has_item}

abbrev pub blocked_result : String → DispatchResult
blocked_result reason = dispatched_result action_goal_block reason false

abbrev pub goal_unavailable : Exec (Unit {0})
goal_unavailable = return (result (retry_later_result "goal_state_unavailable" false))

module _ (codex : Codex) (id : String) where
  abbrev pub resume_to_block : Option ResumeSettings → List String → Exec (Unit {0})
  resume_to_block none listed =
      if has_item id listed
      then (λ log. (more tt, log))
      else return (result (retry_later_result "thread_settings_unavailable" false))
  resume_to_block (some settings) listed =
      if has_item id listed
      then (λ log. (more tt, log))
      else (ask false (thread_resumed id) (λ l. codex.resume l id settings) >>= λ _ l. (more tt, l))

  abbrev pub block_read : Option AppGoal → Exec (Unit {0})
  block_read none = goal_unavailable
  block_read (some goal) =
      if goal.status == "active"
      then (do
        ask false (λ _. goal_set id "blocked") (λ l. codex.set_goal l id "blocked")
        return (result (blocked_result "goal_blocked_after_empty_response_limit")))
      else if goal.status == "blocked"
      then return (result (blocked_result "goal_already_blocked"))
      else if goal.status == "paused"
      then return (result (blocked_result "goal_already_paused"))
      else if goal.status == "completed" || goal.status == "complete"
      then return (result (blocked_result "goal_already_completed"))
      else if goal.status == "usageLimited"
      then return (result (blocked_result "goal_already_usage_limited"))
      else if goal.status == "budgetLimited"
      then return (result (blocked_result "goal_already_budget_limited"))
      else goal_unavailable

  abbrev pub read_to_block : Exec (Unit {0})
  read_to_block = ask false (goal_read id) (λ l. codex.read_goal l id) >>= block_read

  abbrev pub block_over : Option ResumeSettings → Transport → Exec (Unit {0})
  block_over settings official_ipc =
      return (result (retry_later_result "codex_ipc_goal_control_unsupported" false))
  block_over settings shared_server = λ log.
      if not (codex.dial log)
      then (stop (error server_unavailable), log)
      else ((ask false loaded_listed codex.loaded >>= λ listed.
            resume_to_block settings listed >> read_to_block)
          log)

  unfoldable pub block_goal : Option ResumeSettings → String → Exec (Unit {0})
  unfolding preflight
  block_goal settings codex_home =
      if not (codex.supports_home codex_home)
      then return (result (retry_later_result "codex_home_not_shared" false))
      else (preflight codex false >>= block_over settings)

abbrev pub ready_state : Transport → String
ready_state official_ipc = "official_ipc_ready"
ready_state shared_server = "ready"

-- The state, or an error.
abbrev pub readiness_of : Step Transport → Reply ControllerError String
readiness_of (more transport) = answer (ready_state transport)
readiness_of (stop (result r)) = answer r.reason
readiness_of (stop (error e)) = refusal e

unfoldable pub readiness : Codex → Log → Reply ControllerError String
unfolding preflight
readiness codex log = readiness_of (preflight codex false log).0

abbrev pub prepared : Reply ControllerError String → Option ControllerError
prepared (refusal e) = some e
prepared (answer state) =
    if state == "shared_app_server_disabled"
    then some server_disabled
    else if state == "codex_restart_required"
    then some restart_required
    else none

unfoldable pub prepare : Codex → Log → Option ControllerError
unfolding readiness
prepare codex log = prepared (readiness codex log)
