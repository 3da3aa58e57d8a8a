-- ===== src/Controller/Errors.antt =====
-- The errors of the app-server and their reasons (scripts/source/shared_controller.go, app_server_rpc.go).
use codex_auto_retry.Prelude.{String, Bool, false, ◌&&◌, ◌||◌, ◌==◌, if◌then◌else◌}
use codex_auto_retry.Text.{codes, to_lower, contains}

-- What `errors.Is` and `errors.As` find: `errResumeSettingsUnavailable`; a request that the server
-- refused, or a call that failed, each with its method; or nothing of these.
pub data RpcError : Type 0 where
  settings_missing other_rpc_error : RpcError
  refused_request : String → String → RpcError
  failed_call : String → RpcError

abbrev pub says : String → String → Bool
says message part = contains (to_lower (codes message)) (codes part)

abbrev pub invalid_transport : String → Bool
invalid_transport message =
    says message "invalid transport"
    && (says message "mcp_servers.codex_app" || says message "codex_app")

abbrev pub invalid_codex_app_transport_error : RpcError → Bool
invalid_codex_app_transport_error (refused_request method message) = invalid_transport message
invalid_codex_app_transport_error _ = false

abbrev pub empty_input_refused : String → Bool
empty_input_refused message =
    says message "input must not be empty"
    || says message "input array must not be empty"
    || says message "at least one input"
    || (says message "input" && says message "minitems")

abbrev pub empty_app_input_unsupported : RpcError → Bool
empty_app_input_unsupported (refused_request method message) = empty_input_refused message
empty_app_input_unsupported _ = false

unfoldable pub classify_method : String → String
classify_method method =
    if method == "thread/loaded/list"
    then "app_server_loaded_list_failed"
    else if method == "thread/resume"
    then "app_server_thread_resume_failed"
    else if method == "thread/read"
    then "app_server_thread_read_failed"
    else if method == "thread/goal/get"
    then "app_server_goal_read_failed"
    else if method == "thread/goal/set"
    then "app_server_goal_update_failed"
    else if method == "turn/start"
    then "app_server_turn_start_failed"
    else if method == "thread/inject_items"
    then "app_server_subagent_inject_failed"
    else "app_server_request_failed"

unfoldable pub classify_message : String → String → String
unfolding classify_method
classify_message method message =
    if says message "active" || says message "already running" || says message "in progress"
    then "thread_active"
    else if says message "not found" || says message "unknown thread" || says message "no rollout"
    then "thread_not_found"
    else if says message "model provider" || says message "configuration"
    then "thread_config_unavailable"
    else if says message "not initialized" || says message "not ready"
    then "codex_app_not_ready"
    else classify_method method

unfoldable pub classify_app_server_error : RpcError → String
unfolding classify_message classify_method
classify_app_server_error settings_missing = "thread_settings_unavailable"
classify_app_server_error other_rpc_error = "app_server_request_failed"
classify_app_server_error (failed_call method) = classify_method method
classify_app_server_error (refused_request method message) =
    if invalid_transport message
    then "shared_app_server_config_invalid"
    else classify_message method message
