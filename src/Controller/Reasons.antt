-- ===== src/Controller/Reasons.antt =====
-- The reasons that the controller of scripts/source/shared_controller.go gives are codes that the runner lets
-- pass.
use codex_auto_retry.Prelude.{
  ◌≡◌, ◌⊎◌, refl, arith, String, Bool, true, not, ◌&&◌, Option, none, some, ◌==◌, inl, Time,
}
use codex_auto_retry.Text.{is_space}
use codex_auto_retry.Runner.{
  safe_reason_code, trim_string, trim_string_left, trim_string_right, all_reason_runes,
}
use codex_auto_retry.Controller.Goals.{AppGoal, app_goal_hold_reason}
use codex_auto_retry.Controller.Errors.{
  RpcError, settings_missing, other_rpc_error, refused_request, failed_call,
  classify_app_server_error, classify_method, classify_message,
}

-- A reason that the runner lets pass.
unfoldable pub is_reason : String → Bool
is_reason reason = not (reason == "") && not (safe_reason_code reason == "")

-- By the method of a call.
method_reasons :
    (is_reason "app_server_loaded_list_failed" ≡ true)
    × (is_reason "app_server_thread_resume_failed" ≡ true)
    × (is_reason "app_server_thread_read_failed" ≡ true)
    × (is_reason "app_server_goal_read_failed" ≡ true)
    × (is_reason "app_server_goal_update_failed" ≡ true)
    × (is_reason "app_server_turn_start_failed" ≡ true)
    × (is_reason "app_server_subagent_inject_failed" ≡ true)
    × (is_reason "app_server_request_failed" ≡ true)
unfolding is_reason safe_reason_code trim_string trim_string_left trim_string_right is_space
    all_reason_runes
method_reasons = (refl, refl, refl, refl, refl, refl, refl, refl)

-- By the message of a refusal.
error_reasons :
    (is_reason "thread_active" ≡ true)
    × (is_reason "thread_not_found" ≡ true)
    × (is_reason "thread_config_unavailable" ≡ true)
    × (is_reason "codex_app_not_ready" ≡ true)
    × (is_reason "thread_settings_unavailable" ≡ true)
    × (is_reason "shared_app_server_config_invalid" ≡ true)
unfolding is_reason safe_reason_code trim_string trim_string_left trim_string_right is_space
    all_reason_runes
error_reasons = (refl, refl, refl, refl, refl, refl)

-- By the goal.
hold_reasons :
    (is_reason "goal_blocked_before_failure" ≡ true)
    × (is_reason "goal_paused" ≡ true)
    × (is_reason "goal_completed" ≡ true)
    × (is_reason "goal_usage_limited" ≡ true)
    × (is_reason "goal_budget_limited" ≡ true)
    × (is_reason "goal_status_unsupported" ≡ true)
unfolding is_reason safe_reason_code trim_string trim_string_left trim_string_right is_space
    all_reason_runes
hold_reasons = (refl, refl, refl, refl, refl, refl)

classify_method-is_reason : (method : String) → is_reason (classify_method method) ≡ true
unfolding classify_method
classify_method-is_reason method = ground (arith, method_reasons)

pub classify_app_server_error-is_reason :
    (e : RpcError) → is_reason (classify_app_server_error e) ≡ true
unfolding classify_app_server_error classify_message
classify_app_server_error-is_reason settings_missing = ground (arith, error_reasons)
classify_app_server_error-is_reason other_rpc_error = ground (arith, method_reasons)
classify_app_server_error-is_reason (failed_call method) = classify_method-is_reason method
classify_app_server_error-is_reason (refused_request method message) =
    ground (arith, error_reasons, classify_method-is_reason method)

pub app_goal_hold_reason-is_reason :
    (goal : Option AppGoal) (failed_at : Time) (restart : Bool)
    → (app_goal_hold_reason goal failed_at restart ≡ "")
      ⊎ (is_reason (app_goal_hold_reason goal failed_at restart) ≡ true)
unfolding app_goal_hold_reason
app_goal_hold_reason-is_reason none failed_at restart = inl refl
app_goal_hold_reason-is_reason (some goal) failed_at restart = ground (arith, hold_reasons)

-- Of a dispatch over the app-server.
pub dispatch_reasons :
    (is_reason "thread_state_unavailable" ≡ true)
    × (is_reason "subagent_non_empty_failure" ≡ true)
    × (is_reason "subagent_recovery_event_unavailable" ≡ true)
    × (is_reason "subagent_resumed_in_background" ≡ true)
    × (is_reason "goal_status_changed" ≡ true)
    × (is_reason "silent_turn_started_with_goal_held" ≡ true)
    × (is_reason "goal_resumed_in_background" ≡ true)
    × (is_reason "silent_turn_started_in_background" ≡ true)
unfolding is_reason safe_reason_code trim_string trim_string_left trim_string_right is_space
    all_reason_runes
dispatch_reasons = (refl, refl, refl, refl, refl, refl, refl, refl)

-- Of the preflight, and of an active thread.
pub preflight_reasons :
    (is_reason "codex_not_running" ≡ true)
    × (is_reason "shared_app_server_disabled" ≡ true)
    × (is_reason "codex_restart_required" ≡ true)
    × (is_reason "codex_home_not_shared" ≡ true)
    × (is_reason "codex_app_not_ready" ≡ true)
    × (is_reason "thread_active" ≡ true)
unfolding is_reason safe_reason_code trim_string trim_string_left trim_string_right is_space
    all_reason_runes
preflight_reasons = (refl, refl, refl, refl, refl, refl)

-- Of a dispatch over the desktop's own channel.
pub ipc_reasons :
    (is_reason "codex_background_channel_unavailable" ≡ true)
    × (is_reason "subagent_parent_owner_unavailable" ≡ true)
    × (is_reason "subagent_parent_recovery_failed" ≡ true)
    × (is_reason "codex_thread_owner_unavailable" ≡ true)
    × (is_reason "codex_background_dispatch_failed" ≡ true)
    × (is_reason "official_ipc_goal_turn_started" ≡ true)
    × (is_reason "official_ipc_turn_started" ≡ true)
unfolding is_reason safe_reason_code trim_string trim_string_left trim_string_right is_space
    all_reason_runes
ipc_reasons = (refl, refl, refl, refl, refl, refl, refl)

-- Of a goal block.
pub block_reasons :
    (is_reason "codex_ipc_goal_control_unsupported" ≡ true)
    × (is_reason "goal_state_unavailable" ≡ true)
    × (is_reason "goal_blocked_after_empty_response_limit" ≡ true)
    × (is_reason "goal_already_blocked" ≡ true)
    × (is_reason "goal_already_paused" ≡ true)
    × (is_reason "goal_already_completed" ≡ true)
    × (is_reason "goal_already_usage_limited" ≡ true)
    × (is_reason "goal_already_budget_limited" ≡ true)
    × (is_reason "thread_settings_unavailable" ≡ true)
unfolding is_reason safe_reason_code trim_string trim_string_left trim_string_right is_space
    all_reason_runes
block_reasons = (refl, refl, refl, refl, refl, refl, refl, refl, refl)
