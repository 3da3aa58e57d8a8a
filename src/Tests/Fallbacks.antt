-- ===== src/Tests/Fallbacks.antt =====
-- The theorems on the shared backend, the memory limits and the status, each at a daemon that uses the
-- shared backend.
use codex_auto_retry.State.Prune.{keep_entries}
use codex_auto_retry.Prelude.{is_some, length, []}
use codex_auto_retry.Prelude.{ℕ, ◌+◌, ◌-◌, ◌*◌, ◌≤◌, ◌≡◌, ◌⊎◌, refl, true, false, some, second}
use codex_auto_retry.Config.{Config, default_config}
use codex_auto_retry.Policy.{controller_failure_needs_fail_open, one_of}
use codex_auto_retry.Daemon.{Daemon, loaded}
use codex_auto_retry.Daemon.Controller.{
  cleaned, has_latched_config_failure, controller_restart_ready, probed_state,
  skips_controller_probe,
}
use codex_auto_retry.Daemon.Recovery.{RecoveryRequest, no_record}
use codex_auto_retry.Daemon.Status.{status_snapshot}
use codex_auto_retry.Daemon.Fallback.{controller_restart_ready_sound}
use codex_auto_retry.Daemon.Reported.{status_snapshot-counts}
use codex_auto_retry.Tests.Data.{now, later, daemon, daemon-AllWellFormed}

abbrev shared_config : Config
shared_config = record default_config {
  shared_app_server_enabled = true;
  shared_app_server_requested = true;
}

abbrev shared_daemon : Daemon
shared_daemon = record daemon { config = shared_config; controller_state = "ready" }

abbrev request : RecoveryRequest
request = record {
  expires_at = later;
  desktop_running = false;
  config = loaded shared_config;
  availability = no_record;
  turned_off = true;
  cleaned_up = true;
  prepared = true;
  turned_on = true;
  reloaded = loaded shared_config;
  reloaded_at = later;
}

shared_daemon-ready : (controller_restart_ready now (some "ready") cleaned shared_daemon).1 ≡ true
unfolding controller_restart_ready skips_controller_probe has_latched_config_failure probed_state
    controller_failure_needs_fail_open one_of
shared_daemon-ready = refl

controller_restart_ready_sound_example :
    let d' = (controller_restart_ready now (some "ready") cleaned shared_daemon).0 in
    (some "ready" ≡ some d'.controller_state)
    × ((d'.controller_state ≡ "official_ipc_ready")
        ⊎ ((d'.controller_state ≡ "ready")
            × (shared_daemon.config.shared_app_server_enabled ≡ true)))
    × ((shared_daemon.last_controller_probe ≡ 0)
        ⊎ (10 * second ≤ now - shared_daemon.last_controller_probe))
    × (d'.last_controller_probe ≡ now)
    × (has_latched_config_failure shared_daemon ≡ false)
    × (d'.config ≡ shared_daemon.config)
controller_restart_ready_sound_example =
    controller_restart_ready_sound now (some "ready") cleaned shared_daemon shared_daemon-ready

-- 5 GB, over the limit of 4096 MB.
abbrev much : ℕ
much = 5 * 1024 * 1024 * 1024

status_snapshot-counts_example :
    let running = status_snapshot true 1 daemon in
    let ended = status_snapshot false 1 daemon in
    let waiting = keep_entries (λ t. is_some t.pending) daemon.threads in
    let awaited = keep_entries (λ t. is_some t.awaiting) daemon.threads in
    (running.pending_retries ≡ length waiting)
    × (running.active_retries ≡ length awaited)
    × (keep_entries (λ t. is_some t.awaiting) waiting ≡ [])
    × (running.pending_retries + running.active_retries ≤ 3)
    × (ended.pending_retries ≡ 0)
    × (ended.active_retries ≡ 0)
    × (ended.capability.automatic ≡ false)
status_snapshot-counts_example = status_snapshot-counts 1 daemon daemon-AllWellFormed
