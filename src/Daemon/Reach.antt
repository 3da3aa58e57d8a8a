-- ===== src/Daemon/Reach.antt =====
-- The daemon of scripts/source/daemon.go as a step relation: its goroutines take the mutex for the parts
-- of a tick, for either end of a job or of a goal block, for a memory sample and for the status file,
-- in any order and with other parts in between. `processSharedRecovery` of shared_recovery_windows.go
-- adopts a backend in such a part too.
use codex_auto_retry.Prelude.{ℕ, Bool, String, Option, Time}
use codex_auto_retry.Text.{Text}
use codex_auto_retry.Classifier.CcSwitch.{Json}
use codex_auto_retry.Digest.{Digest}
use codex_auto_retry.Runner.{DispatchResult, ControllerError}
use codex_auto_retry.Scanner.{Paths}
use codex_auto_retry.Thread.Lifecycle.{Candidate, Probe}
use codex_auto_retry.Daemon.{Daemon, RetryJob, reconcile_startup}
use codex_auto_retry.Daemon.Controller.{
  FailOpen, note_controller_probe, set_controller_state, fail_open_invalid_config,
  reconcile_shared_backend_cleanup,
}
use codex_auto_retry.Daemon.Memory.{
  note_memory_check, note_memory_sample, record_memory_sample, handle_memory_limit,
}
use codex_auto_retry.Daemon.Recovery.{RecoveryRequest, adopt_backend}
use codex_auto_retry.Daemon.Status.{write_status}
use codex_auto_retry.Daemon.Job.{begin_job, end_job}
use codex_auto_retry.Daemon.GoalBlock.{begin_goal_block, end_goal_block}
use codex_auto_retry.Daemon.Tick.{
  TickInput, tick_events, tick_controls, note_probes, reconcile_probe, tick_dispatch,
}
use codex_auto_retry.Daemon.Invariant.Loops.{AllWellFormed, reconcile_startup-AllWellFormed}
use codex_auto_retry.Daemon.Invariant.Controller.{
  same_threads, fail_open_invalid_config-threads, note_memory_sample-threads,
  handle_memory_limit-threads, reconcile_shared_backend_cleanup-threads,
  adopt_backend-AllWellFormed,
}
use codex_auto_retry.Daemon.Invariant.Jobs.{
  begin_job-AllWellFormed, end_job-AllWellFormed, begin_goal_block-AllWellFormed,
  end_goal_block-AllWellFormed,
}
use codex_auto_retry.Daemon.Invariant.Ticks.{
  tick_events-AllWellFormed, tick_controls-AllWellFormed, note_probes-AllWellFormed,
  reconcile_probe-AllWellFormed, tick_dispatch-AllWellFormed,
}

module _ (decode : Text → Option Json) (digest : Digest) (paths : Paths) where
  pub data Step (d : Daemon) : Daemon → Type 0 where
    adopts_backend : (request : RecoveryRequest) → Step d (adopt_backend request d)
    notes_controller_probe : (now : Time) → Step d (note_controller_probe now d)
    sets_controller_state : (state : String) → Step d (set_controller_state state d)
    fails_open : (result : FailOpen) → Step d (fail_open_invalid_config result d)
    scans :
        (input : TickInput) (ready : Bool)
        → Step d (tick_controls input ready (tick_events decode digest paths input d))
    notes_memory_check : (now : Time) → Step d (note_memory_check now d)
    notes_memory_sample : (limit_mb bytes : ℕ) → Step d (note_memory_sample limit_mb bytes d)
    cleans_up : (error : Option ControllerError) → Step d (reconcile_shared_backend_cleanup error d)
    notes_probes : (now : Time) → Step d (note_probes now d)
    probes :
        (now : Time) (id : String) (candidate : Candidate) (probe : Probe)
        → Step d (reconcile_probe now id candidate probe d)
    dispatches : (input : TickInput) → Step d (tick_dispatch digest input d).0
    begins : (job : RetryJob) → Step d (begin_job job d).0
    ends :
        (job : RetryJob) (at : Time) (result : DispatchResult) (error : Option ControllerError)
        (state_written status_written : Bool)
        → Step d (end_job job at result error state_written status_written d)
    begins_block : (job : RetryJob) → Step d (begin_goal_block job d).0
    ends_block :
        (job : RetryJob) (at : Time) (result : DispatchResult) (error : Option ControllerError)
        (state_written status_written : Bool)
        → Step d (end_goal_block job at result error state_written status_written d)
    records_memory : (bytes : ℕ) → Step d (record_memory_sample bytes d)
    exceeds_memory : (written : Bool) (bytes : ℕ) → Step d (handle_memory_limit written bytes d)
    writes_status : (written : Bool) → Step d (write_status written d)

  -- The daemons that a run reaches from the state that was loaded, with any steps in any order.
  pub data Reachable (loaded : Daemon) : Daemon → Type 0 where
    starts : (now : Time) → Reachable loaded (reconcile_startup now loaded)
    steps : (d d' : Daemon) → Reachable loaded d → Step d d' → Reachable loaded d'

  Step-AllWellFormed : (d d' : Daemon) → Step d d' → AllWellFormed d → AllWellFormed d'
  unfolding note_controller_probe set_controller_state note_memory_check record_memory_sample
      write_status
  Step-AllWellFormed d _ (adopts_backend request) h = adopt_backend-AllWellFormed request d h
  Step-AllWellFormed d _ (notes_controller_probe now) h = h
  Step-AllWellFormed d _ (sets_controller_state state) h = h
  Step-AllWellFormed d _ (fails_open result) h =
      same_threads (fail_open_invalid_config result d) d (fail_open_invalid_config-threads result d)
        h
  Step-AllWellFormed d _ (scans input ready) h =
      tick_controls-AllWellFormed input ready _
        (tick_events-AllWellFormed decode digest paths input d h)
  Step-AllWellFormed d _ (notes_memory_check now) h = h
  Step-AllWellFormed d _ (notes_memory_sample limit_mb bytes) h =
      same_threads (note_memory_sample limit_mb bytes d) d
        (note_memory_sample-threads limit_mb bytes d) h
  Step-AllWellFormed d _ (cleans_up error) h =
      same_threads (reconcile_shared_backend_cleanup error d) d
        (reconcile_shared_backend_cleanup-threads error d) h
  Step-AllWellFormed d _ (notes_probes now) h = note_probes-AllWellFormed now d h
  Step-AllWellFormed d _ (probes now id candidate probe) h =
      reconcile_probe-AllWellFormed now id candidate probe d h
  Step-AllWellFormed d _ (dispatches input) h = tick_dispatch-AllWellFormed digest input d h
  Step-AllWellFormed d _ (begins job) h = begin_job-AllWellFormed job d h
  Step-AllWellFormed d _ (ends job at result error state_written status_written) h =
      end_job-AllWellFormed job at result error state_written status_written d h
  Step-AllWellFormed d _ (begins_block job) h = begin_goal_block-AllWellFormed job d h
  Step-AllWellFormed d _ (ends_block job at result error state_written status_written) h =
      end_goal_block-AllWellFormed job at result error state_written status_written d h
  Step-AllWellFormed d _ (records_memory bytes) h = h
  Step-AllWellFormed d _ (exceeds_memory written bytes) h =
      same_threads (handle_memory_limit written bytes d) d
        (handle_memory_limit-threads written bytes d) h
  Step-AllWellFormed d _ (writes_status written) h = h

  -- From a loaded state whose threads are well-formed and stand once each, every run keeps every
  -- thread well-formed, with one entry, whatever is scanned, commanded, probed and dispatched: a
  -- thread never both waits for a retry and awaits one, a stopped one does neither, and the counters
  -- of the entry are those of the thread.
  pub Reachable-AllWellFormed :
      (loaded d : Daemon) → AllWellFormed loaded → Reachable loaded d → AllWellFormed d
  Reachable-AllWellFormed loaded _ h (starts now) = reconcile_startup-AllWellFormed now loaded h
  Reachable-AllWellFormed loaded _ h (steps d d' r s) =
      Step-AllWellFormed d d' s (Reachable-AllWellFormed loaded d h r)
