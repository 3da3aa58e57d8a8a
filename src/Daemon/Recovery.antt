-- ===== src/Daemon/Recovery.antt =====
-- `processSharedRecovery` of scripts/source/shared_recovery_windows.go: a request of the safe launcher to
-- bring the shared backend back. What the files, the desktop and the backend answer is an argument.
use codex_auto_retry.Prelude.{
  ◌-◌, ◌*◌, String, Bool, true, false, not, ◌||◌, [], ◌∷◌, Option, none, some, ltb, ◌==◌,
  if◌then◌else◌, Time, second, after, Table,
}
use codex_auto_retry.Daemon.{Daemon, RetryJob, Loaded, loaded, load_error, reload_config}

-- `shared-availability.json`: not there, not readable, or what it says of automatic recovery (an entry
-- that cannot be parsed says no).
pub data Availability : Type 0 where
  no_record unreadable_record : Availability
  recorded : Bool → Availability

-- A claimed request with a valid identifier, and what the steps behind it come to: the configuration
-- that is read, the write that turns shared mode off, the cleanup, the backend, and the write that
-- turns shared mode on again.
pub record RecoveryRequest : Type 0 where
  pub expires_at : Time
  pub desktop_running : Bool
  pub config : Loaded
  pub availability : Availability
  pub turned_off : Bool
  pub cleaned_up : Bool
  pub prepared : Bool
  pub turned_on : Bool
  pub reloaded : Loaded
  pub reloaded_at : Time

abbrev pub is_expired : Time → RecoveryRequest → Bool
is_expired now r = not (after r.expires_at now) || ltb (15 * second) (r.expires_at - now)

abbrev pub is_busy : Table RetryJob → Bool
is_busy [] = false
is_busy (_ ∷ _) = true

-- The steps that follow the checks, as far as they get.
unfoldable pub preparation_reason : RecoveryRequest → String
preparation_reason r =
    if not r.turned_off
    then "recovery_cancelled"
    else if not r.cleaned_up
    then "cleanup_not_safe"
    else if not r.prepared
    then "backend_prepare_failed"
    else if not r.turned_on
    then "recovery_cancelled"
    else "prepared"

unfoldable pub availability_reason : RecoveryRequest → Availability → String
unfolding preparation_reason
availability_reason r no_record = preparation_reason r
availability_reason r unreadable_record = "availability_unreadable"
availability_reason r (recorded false) = "manual_recovery_required"
availability_reason r (recorded true) = preparation_reason r

unfoldable pub config_reason : RecoveryRequest → Loaded → String
unfolding availability_reason
config_reason r (load_error message) = "config_unavailable"
config_reason r (loaded config) =
    if not config.shared_app_server_requested
    then "preference_disabled"
    else availability_reason r r.availability

-- The reason in the answer.
unfoldable pub recovery_reason : Time → Table RetryJob → RecoveryRequest → String
unfolding config_reason
recovery_reason now active r =
    if is_expired now r
    then "request_expired"
    else if r.desktop_running
    then "desktop_already_running"
    else if is_busy active
    then "worker_busy"
    else config_reason r r.config

-- The last locked part: the configuration is read again, and the controller is probed anew.
abbrev pub adopt_backend : RecoveryRequest → Daemon → Daemon
adopt_backend r d = record (reload_config r.reloaded r.reloaded_at d) { last_controller_probe = 0 }

unfoldable pub process_shared_recovery : Time → Option RecoveryRequest → Daemon → Daemon
unfolding recovery_reason
process_shared_recovery now none d = d
process_shared_recovery now (some r) d =
    if recovery_reason now d.active r == "prepared" then adopt_backend r d else d
