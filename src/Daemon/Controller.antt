-- ===== src/Daemon/Controller.antt =====
-- `controllerRestartReady`, `failOpenSharedBackend` and `reconcileSharedBackendCleanup` of
-- scripts/source/daemon.go. What the runner answers is an argument.
use codex_auto_retry.Prelude.{
  ◌-◌, ◌*◌, String, Bool, true, false, not, ◌&&◌, ◌||◌, Option, none, some, ◌==◌, ltb,
  if◌then◌else◌, Time, second, is_zero,
}
use codex_auto_retry.Policy.{controller_failure_needs_fail_open}
use codex_auto_retry.Runner.{ControllerError, error_reason, migration_deferred}
use codex_auto_retry.Daemon.{Daemon}

-- What a fail-open comes to: the runner cannot, its cleanup fails, or the shared backend is off.
pub data FailOpen : Type 0 where
  unsupported cleanup_failed cleaned : FailOpen

unfoldable pub fail_open_shared_backend : FailOpen → String → String
fail_open_shared_backend unsupported reason = reason
fail_open_shared_backend cleanup_failed reason = reason
fail_open_shared_backend cleaned reason = "shared_app_server_disabled"

-- `if state == "shared_app_server_disabled" { ... }; d.controllerState = state`
unfoldable pub set_controller_state : String → Daemon → Daemon
set_controller_state state d = record d {
  config =
      if state == "shared_app_server_disabled"
      then record d.config { shared_app_server_enabled = false }
      else d.config;
  controller_state = state;
}

unfoldable pub skips_controller_probe : Time → Daemon → Bool
skips_controller_probe now d =
    not (is_zero d.last_controller_probe) && ltb (now - d.last_controller_probe) (10 * second)

-- The first locked part.
unfoldable pub note_controller_probe : Time → Daemon → Daemon
note_controller_probe now d = record d { last_controller_probe = now }

unfoldable pub has_latched_config_failure : Daemon → Bool
has_latched_config_failure d =
    d.config.shared_app_server_enabled && d.controller_state == "shared_app_server_config_invalid"

-- The second locked part behind a latched failure.
unfoldable pub fail_open_invalid_config : FailOpen → Daemon → Daemon
unfolding set_controller_state
fail_open_invalid_config result d =
    let state = fail_open_shared_backend result "shared_app_server_config_invalid" in
    let failed = set_controller_state state d in
    if state == "shared_app_server_disabled"
    then failed
    else record failed { last_error = "shared_app_server_config_invalid" }

-- The state that a probe's answer comes to.
unfoldable pub probed_state : Bool → FailOpen → String → String
probed_state shared_enabled result answer =
    let state =
      if not shared_enabled && answer == "ready" then "shared_app_server_disabled" else answer in
    if shared_enabled && controller_failure_needs_fail_open state
    then fail_open_shared_backend result state
    else state

abbrev pub is_ready_state : String → Bool
is_ready_state state = state == "ready" || state == "official_ipc_ready"

-- `none` for a runner that has no controller state. The Boolean tells whether the controller is ready.
unfoldable pub controller_restart_ready : Time → Option String → FailOpen → Daemon → Daemon × Bool
unfolding note_controller_probe set_controller_state
controller_restart_ready now none result d = (d, false)
controller_restart_ready now (some answer) result d =
    let noted = note_controller_probe now d in
    let state = probed_state d.config.shared_app_server_enabled result answer in
    if skips_controller_probe now d
    then (d, false)
    else if has_latched_config_failure d
    then (fail_open_invalid_config result noted, false)
    else (set_controller_state state noted, is_ready_state state)

abbrev pub is_deferred : ControllerError → Bool
is_deferred migration_deferred = true
is_deferred _ = false

-- The error of the cleanup, if the runner has one to make.
unfoldable pub reconcile_shared_backend_cleanup : Option ControllerError → Daemon → Daemon
reconcile_shared_backend_cleanup none d = d
reconcile_shared_backend_cleanup (some error) d =
    if is_deferred error then d else record d { last_error = error_reason error }
