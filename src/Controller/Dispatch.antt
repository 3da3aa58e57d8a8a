-- ===== src/Controller/Dispatch.antt =====
-- `Dispatch` of scripts/source/shared_controller.go over the shared app-server: one retry of a thread.
pub mod Channels
pub mod Careful
pub mod Safe
use codex_auto_retry.Prelude.{
  String, Bool, true, false, not, ◌&&◌, ◌||◌, List, [], ◌∷◌, Option, none, some, ◌==◌, is_some,
  if◌then◌else◌, Time,
}
use codex_auto_retry.Model.{
  FailureClass, action_conversation_continue, action_goal_resume, action_subagent_continue,
}
use codex_auto_retry.Policy.{is_empty_response}
use codex_auto_retry.Runner.{DispatchResult, server_unavailable}
use codex_auto_retry.Events.{Value, Members, text, object, find_member}
use codex_auto_retry.Events.Notices.{is_recovery_event_id}
use codex_auto_retry.Resume.{ResumeSettings}
use codex_auto_retry.Controller.Goals.{
  AppGoal, app_goal_hold_reason, app_held_conversation_allowed, app_goal_revision,
}
use codex_auto_retry.Controller.Errors.{
  RpcError, classify_app_server_error, empty_app_input_unsupported,
}
use codex_auto_retry.Controller.Preflight.{Transport, official_ipc, shared_server, preflight}
use codex_auto_retry.Controller.{
  AppThread, Entry, loaded_listed, thread_resumed, thread_read, goal_read, goal_set, turn_started,
  notice_given, refused, Log, Reply, answer, refusal, IpcError, owner_missing, other_ipc_error,
  Codex, Answer, result, error, Step, more, stop, Exec, continue, ◌>>=◌, ◌>>◌, return,
  retry_later_result, not_applicable_result, user_active_result, dispatched_result, replied, ask,
}

-- The arguments of a dispatch.
pub record Request : Type 0 where
  pub thread_id : String
  pub prompt : String
  pub settings : ResumeSettings
  pub failed_at : Time
  pub origin_turn_started_at : Time
  pub recovery_event_id : String
  pub parent_notified : Bool
  pub goal_limit_restart : Bool
  pub failure_class : FailureClass
  pub codex_home : String

abbrev pub has_item : String → List String → Bool
has_item id [] = false
has_item id (x ∷ rest) = x == id || has_item id rest

-- A member of an object; a JSON value that is none has no member.
abbrev pub get_member : Option Value → String → Option Value
get_member (some (object members)) name = find_member members name
get_member _ name = none

abbrev pub as_string : Option Value → String
as_string (some (text t)) = t
as_string _ = ""

unfoldable pub app_thread_parent_id : AppThread → String
unfolding find_member
app_thread_parent_id thread =
    if not (thread.parent_thread_id == "")
    then thread.parent_thread_id
    else as_string (
        get_member (get_member (get_member thread.source "subAgent") "thread_spawn")
          "parent_thread_id")

abbrev pub subagent_resumed : DispatchResult
subagent_resumed = dispatched_result action_subagent_continue "subagent_resumed_in_background" true

module _ (codex : Codex) where
  -- The answer that the prompt is needed, or any other.
  abbrev pub or_with_prompt : Bool → String → String → Reply RpcError (Unit {0}) → Exec (Unit {0})
  or_with_prompt notified id prompt (answer _) log = (more tt, turn_started id ∷ log)
  or_with_prompt notified id prompt (refusal e) log =
      if empty_app_input_unsupported e
      then ask notified (λ _. turn_started id) (λ l. codex.start_turn l id (some prompt))
          (refused ∷ log)
      else replied notified (λ _. turn_started id) (refusal e) log

  abbrev pub start_app_conversation : Bool → String → String → Exec (Unit {0})
  start_app_conversation notified id prompt log =
      or_with_prompt notified id prompt (codex.start_turn log id none) log

  abbrev pub resume_with : Bool → String → Reply RpcError ResumeSettings → Exec (Unit {0})
  resume_with notified id (answer settings) log =
      (ask notified (thread_resumed id) (λ l. codex.resume l id settings) >>= λ _ l. (more tt, l))
        log
  resume_with notified id (refusal e) log =
      (stop (result (retry_later_result (classify_app_server_error e) notified)), log)

  abbrev pub resume_parent : Request → String → List String → Exec (Unit {0})
  resume_parent req parent listed =
      if has_item parent listed
      then (λ log. (more tt, log))
      else resume_with req.parent_notified parent (codex.settings_for req.codex_home parent)

  abbrev pub inject_notice : Request → String → Exec (Unit {0})
  inject_notice req parent =
      ask req.parent_notified (λ _. notice_given parent req.thread_id req.recovery_event_id)
        (λ l. codex.inject l parent req.thread_id req.recovery_event_id)

  abbrev pub inject_listed : Request → String → List String → Exec (Unit {0})
  inject_listed req parent listed = resume_parent req parent listed >> inject_notice req parent

  -- `injectSubagentNotice`
  abbrev pub inject_subagent_notice : Request → String → Exec (Unit {0})
  inject_subagent_notice req parent =
      ask req.parent_notified loaded_listed codex.loaded >>= inject_listed req parent

  -- The status of the thread, resumed if it is not loaded: "" where it was loaded or has none.
  abbrev pub resume_unless_loaded : Request → List String → Exec String
  resume_unless_loaded req listed =
      if has_item req.thread_id listed
      then (λ log. (more "", log))
      else ask req.parent_notified (thread_resumed req.thread_id)
          (λ l. codex.resume l req.thread_id req.settings)

  abbrev pub read_app_thread : Request → Bool → Exec (Option AppThread)
  read_app_thread req notified =
      ask notified (thread_read req.thread_id) (λ l. codex.read_thread l req.thread_id)

  abbrev pub read_app_goal : Request → Exec (Option AppGoal)
  read_app_goal req =
      ask req.parent_notified (goal_read req.thread_id) (λ l. codex.read_goal l req.thread_id)

  abbrev pub start_conversation : Request → Bool → DispatchResult → Exec (Unit {0})
  start_conversation req notified r = do
    start_app_conversation notified req.thread_id req.prompt
    return (result r)

  abbrev pub is_active_thread : Option AppThread → String → Bool
  is_active_thread none resumed_status = false
  is_active_thread (some thread) resumed_status =
      thread.status == "active" || resumed_status == "active"

  -- A child: its parent is told first, unless it was.
  abbrev pub tell_parent : Request → String → Exec (Unit {0})
  tell_parent req parent =
      if req.parent_notified
      then (λ log. (more tt, log))
      else if not (is_recovery_event_id req.recovery_event_id)
      then return
          (result (retry_later_result "subagent_recovery_event_unavailable" req.parent_notified))
      else inject_subagent_notice req parent

  abbrev pub start_unless_active : Request → String → Option AppThread → Exec (Unit {0})
  start_unless_active req resumed_status latest =
      if is_active_thread latest resumed_status
      then return (result (user_active_result true))
      else start_conversation req true subagent_resumed

  abbrev pub start_subagent : Request → String → Exec (Unit {0})
  start_subagent req resumed_status =
      read_app_thread req true >>= start_unless_active req resumed_status

  unfoldable pub dispatch_to_subagent : Request → String → String → Exec (Unit {0})
  unfolding is_recovery_event_id
  dispatch_to_subagent req parent resumed_status =
      if not (is_empty_response req.failure_class)
      then return (result (not_applicable_result "subagent_non_empty_failure" req.parent_notified))
      else (tell_parent req parent >> start_subagent req resumed_status)

  abbrev pub conversation_unless_active : Request → String → String → Exec (Unit {0})
  conversation_unless_active req resumed_status reason =
      if resumed_status == "active"
      then return (result (user_active_result req.parent_notified))
      else start_conversation req req.parent_notified
          (dispatched_result action_conversation_continue reason req.parent_notified)

  abbrev pub goal_resumed : Request → DispatchResult
  goal_resumed req =
      dispatched_result action_goal_resume "goal_resumed_in_background" req.parent_notified

  -- The goal as it is read last, which nothing holds.
  abbrev pub resume_goal : Request → String → Option AppGoal → Exec (Unit {0})
  resume_goal req resumed_status none =
      conversation_unless_active req resumed_status "silent_turn_started_in_background"
  resume_goal req resumed_status (some goal) =
      if goal.status == "blocked"
      then (do
        ask req.parent_notified (λ _. goal_set req.thread_id "active")
            (λ l. codex.set_goal l req.thread_id "active")
        return (result (goal_resumed req)))
      else if goal.status == "active"
      then return (result (goal_resumed req))
      else conversation_unless_active req resumed_status "silent_turn_started_in_background"

  -- The second reading of the goal, against the first.
  unfoldable pub dispatch_again :
      Request → String → Option AppGoal → Option AppGoal → Exec (Unit {0})
  dispatch_again req resumed_status initial latest =
      let continuing =
        app_held_conversation_allowed initial req.failed_at req.origin_turn_started_at
          req.goal_limit_restart in
      let still =
        app_held_conversation_allowed latest req.failed_at req.origin_turn_started_at
          req.goal_limit_restart in
      let hold = app_goal_hold_reason latest req.failed_at req.goal_limit_restart in
      let changed : Exec (Unit {0}) =
        return (result (not_applicable_result "goal_status_changed" req.parent_notified)) in
      if (is_some initial && not (is_some latest)) || (not (is_some initial) && is_some latest)
      then changed
      else if continuing
      then (if not still || not (app_goal_revision latest == app_goal_revision initial)
          then changed
          else conversation_unless_active req resumed_status "silent_turn_started_with_goal_held")
      else if not (hold == "")
      then return (result (not_applicable_result hold req.parent_notified))
      else resume_goal req resumed_status latest

  -- The first reading of the goal.
  abbrev pub after_first_goal : Request → String → Option AppGoal → Exec (Unit {0})
  after_first_goal req resumed_status initial =
      let hold = app_goal_hold_reason initial req.failed_at req.goal_limit_restart in
      if not (hold == "")
        && not (
            app_held_conversation_allowed initial req.failed_at req.origin_turn_started_at
              req.goal_limit_restart)
      then return (result (not_applicable_result hold req.parent_notified))
      else (read_app_goal req >>= dispatch_again req resumed_status initial)

  unfoldable pub dispatch_to_thread : Request → String → Exec (Unit {0})
  dispatch_to_thread req resumed_status = read_app_goal req >>= after_first_goal req resumed_status

  -- The thread as it is read first.
  unfoldable pub dispatch_read : Request → String → Option AppThread → Exec (Unit {0})
  dispatch_read req resumed_status none =
      return (result (retry_later_result "thread_state_unavailable" req.parent_notified))
  dispatch_read req resumed_status (some thread) =
      let status = if resumed_status == "" then thread.status else resumed_status in
      if thread.status == ""
      then return (result (retry_later_result "thread_state_unavailable" req.parent_notified))
      else if thread.status == "active" || resumed_status == "active"
      then return (result (user_active_result req.parent_notified))
      else if not (app_thread_parent_id thread == "")
      then dispatch_to_subagent req (app_thread_parent_id thread) status
      else dispatch_to_thread req status

  abbrev pub dispatch_loaded : Request → String → Exec (Unit {0})
  dispatch_loaded req resumed_status =
      read_app_thread req req.parent_notified >>= dispatch_read req resumed_status

  abbrev pub dispatch_listed : Request → List String → Exec (Unit {0})
  dispatch_listed req listed = resume_unless_loaded req listed >>= dispatch_loaded req

  unfoldable pub dispatch_over_server : Request → Exec (Unit {0})
  unfolding dispatch_read dispatch_to_subagent dispatch_to_thread dispatch_again
  dispatch_over_server req log =
      if not (codex.dial log)
      then (stop (error server_unavailable), log)
      else ((ask req.parent_notified loaded_listed codex.loaded >>= dispatch_listed req) log)
