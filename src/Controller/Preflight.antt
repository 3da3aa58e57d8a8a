-- ===== src/Controller/Preflight.antt =====
-- `preflight` of scripts/source/shared_controller.go: over which channel Codex is reached, if any.
use codex_auto_retry.Prelude.{Bool, true, false, not, ◌∷◌, if◌then◌else◌}
use codex_auto_retry.Runner.{ControllerError, server_unavailable}
use codex_auto_retry.Controller.{
  DesktopState, desktop_stopped, desktop_legacy_stdio, desktop_shared_server, desktop_unknown,
  desktop_checked, ipc_checked, server_ensured, refused, Reply, answer, refusal, Codex, result,
  error, more, stop, Exec, ◌>>=◌, ◌>>◌, return, retry_later_result,
}

-- The channels of a dispatch.
pub data Transport : Type 0 where
  official_ipc shared_server : Transport

module _ (codex : Codex) where
  abbrev pub with_state : Reply ControllerError DesktopState → Exec DesktopState
  with_state (answer state) log = (more state, desktop_checked state ∷ log)
  with_state (refusal e) log = (stop (error e), refused ∷ log)

  abbrev pub check_desktop : Exec DesktopState
  check_desktop log = with_state (codex.desktop log) log

  -- `officialIPCReady`
  abbrev pub official_ipc_ready : Exec Bool
  official_ipc_ready log =
      if codex.has_ipc
      then (more (codex.ipc_available log), ipc_checked (codex.ipc_available log) ∷ log)
      else (more false, log)

  abbrev pub ensured : Reply ControllerError (Unit {0}) → Exec (Unit {0})
  ensured (answer _) log = (more tt, server_ensured ∷ log)
  ensured (refusal e) log = (stop (error e), refused ∷ log)

  abbrev pub ensure_shared_server : Exec (Unit {0})
  ensure_shared_server log = ensured (codex.ensure log) log

  -- `state == desktopLegacyStdio && c.officialIPCReady(ctx)`
  abbrev pub reaches_ipc : DesktopState → Exec Bool
  reaches_ipc desktop_legacy_stdio = official_ipc_ready
  reaches_ipc _ = λ log. (more false, log)

  abbrev pub with_shared_off : Bool → DesktopState → Exec Transport
  with_shared_off parent_notified desktop_stopped =
      return (result (retry_later_result "codex_not_running" parent_notified))
  with_shared_off parent_notified _ =
      return (result (retry_later_result "shared_app_server_disabled" parent_notified))

  abbrev pub or_restart : Bool → Bool → Exec Transport
  or_restart parent_notified true = λ log. (more official_ipc, log)
  or_restart parent_notified false =
      return (result (retry_later_result "codex_restart_required" parent_notified))

  -- The second look at the desktop, when the shared server runs.
  abbrev pub with_shared_on : Bool → DesktopState → Exec Transport
  with_shared_on parent_notified desktop_stopped =
      return (result (retry_later_result "codex_not_running" parent_notified))
  with_shared_on parent_notified desktop_legacy_stdio =
      official_ipc_ready >>= or_restart parent_notified
  with_shared_on parent_notified desktop_unknown =
      return (result (retry_later_result "codex_app_not_ready" parent_notified))
  with_shared_on parent_notified desktop_shared_server = λ log. (more shared_server, log)
  with_shared_on parent_notified _ = return (error server_unavailable)

  abbrev pub ensure_shared : Bool → Exec Transport
  ensure_shared parent_notified =
      ensure_shared_server >> (check_desktop >>= with_shared_on parent_notified)

  abbrev pub when_enabled : Reply ControllerError Bool → Bool → Exec Transport
  when_enabled (refusal e) parent_notified = return (error e)
  when_enabled (answer enabled) parent_notified = do
    state ← check_desktop
    ready ← reaches_ipc state
    if ready
        then (λ log. (more official_ipc, log))
        else if not enabled
        then with_shared_off parent_notified state
        else ensure_shared parent_notified

  unfoldable pub preflight : Bool → Exec Transport
  preflight parent_notified = when_enabled codex.shared_enabled parent_notified
