-- ===== src/Daemon/Invariant/Controller.antt =====
-- The controller, the memory limits and the writing of files (scripts/source/daemon.go,
-- shared_recovery_windows.go) change no thread.
use codex_auto_retry.Prelude.{
  ℕ, ◌≡◌, refl, sym, subst, arith, String, Bool, Option, none, some, Time, UniqueKeys, ◌==◌,
}
use codex_auto_retry.Runner.{ControllerError}
use codex_auto_retry.Daemon.{Daemon}
use codex_auto_retry.Daemon.Controller.{
  FailOpen, fail_open_invalid_config, note_controller_probe, controller_restart_ready,
  reconcile_shared_backend_cleanup,
}
use codex_auto_retry.Daemon.Memory.{
  MemoryReading, no_reader, unreadable, sample, note_memory_sample, check_shared_memory,
  handle_memory_limit,
}
use codex_auto_retry.Daemon.Recovery.{
  RecoveryRequest, adopt_backend, recovery_reason, process_shared_recovery,
}
use codex_auto_retry.Daemon.Status.{persist_state}
use codex_auto_retry.Daemon.Invariant.Loops.{
  WellFormedThreads, AllWellFormed, choose-AllWellFormed, reload_config-AllWellFormed,
}

pub same_threads : (d' d : Daemon) → d'.threads ≡ d.threads → AllWellFormed d → AllWellFormed d'
same_threads d' d e h = subst (λ m. WellFormedThreads m × UniqueKeys m) (sym e) h

pub fail_open_invalid_config-threads :
    (result : FailOpen) (d : Daemon) → (fail_open_invalid_config result d).threads ≡ d.threads
unfolding fail_open_invalid_config
fail_open_invalid_config-threads result d = ground arith

pub controller_restart_ready-threads :
    (now : Time) (answer : Option String) (result : FailOpen) (d : Daemon)
    → (controller_restart_ready now answer result d).0.threads ≡ d.threads
unfolding controller_restart_ready
controller_restart_ready-threads now none result d = refl
controller_restart_ready-threads now (some answer) result d = ground (
  arith,
  fail_open_invalid_config-threads result
      (unfold note_controller_probe in note_controller_probe now d),
)

pub note_memory_sample-threads :
    (limit_mb bytes : ℕ) (d : Daemon) → (note_memory_sample limit_mb bytes d).threads ≡ d.threads
unfolding note_memory_sample
note_memory_sample-threads limit_mb bytes d = ground arith

pub check_shared_memory-threads :
    (now : Time) (reading : MemoryReading) (result : FailOpen) (d : Daemon)
    → (check_shared_memory now reading result d).threads ≡ d.threads
unfolding check_shared_memory
check_shared_memory-threads now no_reader result d = ground arith
check_shared_memory-threads now unreadable result d = ground arith
check_shared_memory-threads now (sample bytes) result d = ground arith

pub handle_memory_limit-threads :
    (written : Bool) (bytes : ℕ) (d : Daemon)
    → (handle_memory_limit written bytes d).threads ≡ d.threads
unfolding handle_memory_limit
handle_memory_limit-threads written bytes d = ground arith

pub reconcile_shared_backend_cleanup-threads :
    (error : Option ControllerError) (d : Daemon)
    → (reconcile_shared_backend_cleanup error d).threads ≡ d.threads
unfolding reconcile_shared_backend_cleanup
reconcile_shared_backend_cleanup-threads none d = refl
reconcile_shared_backend_cleanup-threads (some error) d = ground arith

pub persist_state-threads :
    (written : Bool) (d : Daemon) → (persist_state written d).threads ≡ d.threads
unfolding persist_state
persist_state-threads written d = ground arith

pub adopt_backend-AllWellFormed :
    (r : RecoveryRequest) (d : Daemon) → AllWellFormed d → AllWellFormed (adopt_backend r d)
adopt_backend-AllWellFormed r d h = reload_config-AllWellFormed r.reloaded r.reloaded_at d h

pub process_shared_recovery-AllWellFormed :
    (now : Time) (request : Option RecoveryRequest) (d : Daemon)
    → AllWellFormed d
    → AllWellFormed (process_shared_recovery now request d)
unfolding process_shared_recovery
process_shared_recovery-AllWellFormed now none d h = h
process_shared_recovery-AllWellFormed now (some r) d h =
    choose-AllWellFormed (recovery_reason now d.active r == "prepared") _ d
      (adopt_backend-AllWellFormed r d h) h
