-- ===== src/Daemon/Status.antt =====
-- `writeStatusLocked` and `persistStateLocked` of scripts/source/daemon.go, with
-- `capabilityForControllerState` of model.go and `retrySafetyWarning` of config.go. The result of
-- writing a file is an argument. The text of the warning, the version, the build and the log's path are
-- not modelled.
use codex_auto_retry.Prelude.{
  ℕ, suc, String, Bool, true, false, not, ◌&&◌, ◌||◌, [], ◌∷◌, ltb, ◌==◌, is_some, if◌then◌else◌,
  Time, Table,
}
use codex_auto_retry.Model.{ThreadState}
use codex_auto_retry.Config.{Config}
use codex_auto_retry.Policy.{one_of}
use codex_auto_retry.Daemon.{Daemon}
use codex_auto_retry.Daemon.Memory.{memory_bytes_to_mb}

pub record DesktopCapability : Type 0 where
  pub transport : String
  pub recovery_mode : String
  pub automatic : Bool
  pub reason : String

abbrev pub without_recovery : String → String → String → DesktopCapability
without_recovery transport recovery_mode reason = record {
  transport = transport;
  recovery_mode = recovery_mode;
  automatic = false;
  reason = reason;
}

abbrev pub verified : String → DesktopCapability
verified transport = record {
  transport = transport;
  recovery_mode = transport;
  automatic = true;
  reason = "verified";
}

unfoldable pub is_shared_failure : String → Bool
unfolding one_of
is_shared_failure state = one_of state (
    "shared_app_server_config_invalid" ∷ "shared_app_server_port_conflict"
    ∷ "shared_app_server_port_reserved" ∷ "shared_app_server_environment_conflict"
    ∷ "shared_app_server_ownership_unknown" ∷ [])

unfoldable pub capability_for_controller_state : String → Bool → DesktopCapability
capability_for_controller_state state shared_enabled =
    if state == "ready"
    then verified "shared_websocket"
    else if state == "official_ipc_ready"
    then verified "official_ipc"
    else if state == "codex_restart_required"
    then without_recovery "official_stdio" "safe_launcher_required"
        "official_stdio_not_externally_controllable"
    else if state == "codex_not_running"
    then without_recovery "stopped" "none" "codex_not_running"
    else if state == "codex_app_not_ready"
    then without_recovery "unknown" "none" "desktop_connection_not_proven"
    else if state == "shared_app_server_disabled"
    then without_recovery "official_stdio" "none" "shared_backend_disabled"
    else if is_shared_failure state && not shared_enabled
    then without_recovery "official_stdio" "none" state
    else without_recovery "unknown" "none" state

abbrev pub add_one_if : Bool → ℕ → ℕ
add_one_if b n = if b then suc n else n

unfoldable pub count_pending : Table ThreadState → ℕ
count_pending [] = 0
count_pending ((id, thread) ∷ rest) = add_one_if (is_some thread.pending) (count_pending rest)

unfoldable pub count_awaiting : Table ThreadState → ℕ
count_awaiting [] = 0
count_awaiting ((id, thread) ∷ rest) = add_one_if (is_some thread.awaiting) (count_awaiting rest)

-- `retrySafetyWarning() != ""`
unfoldable pub has_safety_warning : Config → Bool
has_safety_warning config =
    ltb 100 config.max_recovery_attempts || ltb 20 config.max_consecutive_retries

pub record StatusSnapshot : Type 0 where
  pub capability : DesktopCapability
  pub running : Bool
  pub started_at : Time
  pub last_scan_at : Time
  pub watched_roots : ℕ
  pub pending_retries : ℕ
  pub active_retries : ℕ
  pub paused : Bool
  pub shared_app_server_enabled : Bool
  pub shared_app_server_requested : Bool
  pub controller_state : String
  pub last_error : String
  pub memory_usage_mb : ℕ
  pub memory_limit_mb : ℕ
  pub memory_guard_triggered : Bool
  pub shared_memory_usage_mb : ℕ
  pub shared_memory_limit_mb : ℕ
  pub shared_memory_guard_triggered : Bool
  pub has_warning : Bool

unfoldable pub status_snapshot : Bool → ℕ → Daemon → StatusSnapshot
unfolding count_pending count_awaiting capability_for_controller_state memory_bytes_to_mb
status_snapshot running roots d = record {
  capability =
      if running
      then capability_for_controller_state d.controller_state d.config.shared_app_server_enabled
      else capability_for_controller_state "codex_not_running" false;
  running = running;
  started_at = d.started_at;
  last_scan_at = d.last_scan;
  watched_roots = roots;
  pending_retries = if running then count_pending d.threads else 0;
  active_retries = if running then count_awaiting d.threads else 0;
  paused = d.paused;
  shared_app_server_enabled = d.config.shared_app_server_enabled;
  shared_app_server_requested = d.config.shared_app_server_requested;
  controller_state = d.controller_state;
  last_error = d.last_error;
  memory_usage_mb = memory_bytes_to_mb d.memory_usage_bytes;
  memory_limit_mb = d.config.memory_limit_mb;
  memory_guard_triggered = d.memory_guard_triggered;
  shared_memory_usage_mb = memory_bytes_to_mb d.shared_memory_bytes;
  shared_memory_limit_mb = d.config.shared_app_server_memory_limit_mb;
  shared_memory_guard_triggered = d.shared_memory_guard_triggered;
  has_warning = has_safety_warning d.config;
}

-- `written` is false for an error of the writer.
unfoldable pub write_status : Bool → Daemon → Daemon
write_status written d = record d { status_write_deferred = not written }

unfoldable pub persist_state : Bool → Daemon → Daemon
persist_state written d =
    if not written
    then record d { state_write_deferred = true; last_error = "state_write_deferred" }
    else if d.state_write_deferred
    then record d {
      state_write_deferred = false;
      last_error = if d.last_error == "state_write_deferred" then "" else d.last_error;
    }
    else d
