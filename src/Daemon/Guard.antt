-- ===== src/Daemon/Guard.antt =====
-- When the memory guards of scripts/source/daemon.go are triggered, and what they do.
use codex_auto_retry.Prelude.{ℕ, ◌≤◌, ◌≡◌, arith, Bool, true, false, not, Time, ◌==◌, ◌⊎◌, ◌↔◌}
use codex_auto_retry.Daemon.{Daemon}
use codex_auto_retry.Daemon.Controller.{FailOpen, fail_open_shared_backend, set_controller_state}
use codex_auto_retry.Daemon.Memory.{
  sample, skips_memory_check, note_memory_check, note_memory_sample, apply_memory_sample,
  check_shared_memory, limit_bytes, record_memory_sample, handle_memory_limit,
}

-- The memory guard of the shared backend is triggered exactly by a sample that reaches the limit, of a
-- check that is due, with a limit that is set, or else stays as it was.
pub check_shared_memory-exact :
    (now : Time) (bytes : ℕ) (result : FailOpen) (d : Daemon)
    → let d' = check_shared_memory now (sample bytes) result d in
      let limit_mb = d.config.shared_app_server_memory_limit_mb in
      d'.shared_memory_guard_triggered ≡ true
      ↔ (d.shared_memory_guard_triggered ≡ true)
        ⊎ ((skips_memory_check now d ≡ false) × (1 ≤ limit_mb) × (limit_bytes limit_mb ≤ bytes))
unfolding check_shared_memory apply_memory_sample note_memory_sample note_memory_check
    set_controller_state skips_memory_check
check_shared_memory-exact now bytes result d = ground arith

-- A sample over the limit makes the daemon give the shared backend up: the fail-open decides the state of
-- the controller, and shared mode is off exactly if that state says so.
pub check_shared_memory-fails_open :
    (now : Time) (bytes : ℕ) (result : FailOpen) (d : Daemon)
    → skips_memory_check now d ≡ false
    → 1 ≤ d.config.shared_app_server_memory_limit_mb
    → limit_bytes d.config.shared_app_server_memory_limit_mb ≤ bytes
    → let d' = check_shared_memory now (sample bytes) result d in
      (d'.controller_state
        ≡ fail_open_shared_backend result "shared_app_server_memory_limit_exceeded")
      × (d'.config.shared_app_server_enabled
          ≡ not (d'.controller_state == "shared_app_server_disabled"))
      × (d'.last_error ≡ "shared_app_server_memory_limit_exceeded")
      × (d'.shared_memory_bytes ≡ bytes)
unfolding check_shared_memory apply_memory_sample note_memory_sample note_memory_check
    set_controller_state skips_memory_check fail_open_shared_backend
check_shared_memory-fails_open now bytes result d due set over = ground (arith, due, set, over)

-- Once the memory guard of a daemon is triggered, later samples change its memory usage only.
pub handle_memory_limit-again :
    (written again : Bool) (bytes later : ℕ) (d : Daemon)
    → let stopped = handle_memory_limit written bytes d in
      handle_memory_limit again later stopped ≡ record_memory_sample later stopped
unfolding handle_memory_limit record_memory_sample
handle_memory_limit-again written again bytes later d = ground arith
