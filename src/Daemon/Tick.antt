-- ===== src/Daemon/Tick.antt =====
-- `tick` of scripts/source/daemon.go. What it reads from outside (the files, and the answers of the
-- runner) is an argument.
use codex_auto_retry.Prelude.{
  String, Bool, true, false, ◌&&◌, not, List, [], ◌∷◌, Option, none, some, Time, Table,
  if◌then◌else◌, is_some, ◌==◌,
}
use codex_auto_retry.Text.{Text}
use codex_auto_retry.Model.{ThreadState}
use codex_auto_retry.Config.{Config}
use codex_auto_retry.Classifier.CcSwitch.{Json}
use codex_auto_retry.Digest.{Digest}
use codex_auto_retry.Thread.{Reply, no_change, stores}
use codex_auto_retry.Thread.Lifecycle.{
  Candidate, Probe, status, failure, choose_candidate, apply_probe,
}
use codex_auto_retry.Daemon.{
  Daemon, RetryJob, Loaded, Controls, thread_of, apply_reply, each_thread, reload_config,
  reopen_restart_required, refresh_controls, expire_awaiting,
}
use codex_auto_retry.Runner.{ControllerError}
use codex_auto_retry.Scanner.{Paths, Rollout, scan_sessions}
use codex_auto_retry.State.Prune.{prune_events, prune_files, prune_threads}
use codex_auto_retry.Daemon.Controller.{
  FailOpen, controller_restart_ready, reconcile_shared_backend_cleanup,
}
use codex_auto_retry.Daemon.Memory.{MemoryReading, check_shared_memory}
use codex_auto_retry.Daemon.Recovery.{RecoveryRequest, process_shared_recovery}
use codex_auto_retry.Daemon.Status.{persist_state, write_status}
use codex_auto_retry.Daemon.Handle.{handle_events, sort_events}
use codex_auto_retry.Daemon.Dispatch.{dispatch_due}
use codex_auto_retry.Daemon.Job.{record_controller_success}

abbrev pub probe_time : Option (ThreadState × Candidate) → Reply
probe_time none = no_change
probe_time (some (thread, candidate)) = stores thread

-- The first loop of `reconcileAwaitingLifecycle` writes the time of the probe to the thread.
unfoldable pub note_probes : Time → Daemon → Daemon
note_probes now d = each_thread (λ id thread. probe_time (choose_candidate d.config now thread)) d

abbrev pub cons_candidate :
    String
    → Option (ThreadState × Candidate)
    → List (String × Candidate)
    → List (String × Candidate)
cons_candidate id none rest = rest
cons_candidate id (some (thread, candidate)) rest = (id, candidate) ∷ rest

unfoldable pub probe_candidates : Config → Time → Table ThreadState → List (String × Candidate)
probe_candidates config now [] = []
probe_candidates config now ((id, thread) ∷ rest) =
    cons_candidate id (choose_candidate config now thread) (probe_candidates config now rest)

-- Whether the probed retry is still the thread's.
abbrev pub still_awaited : Candidate → ThreadState → Bool
still_awaited candidate thread = elim thread.awaiting [
  | none ↦ false
  | some awaiting ↦
      awaiting.event_key == candidate.event_key && awaiting.retry_turn_id == candidate.turn_id
]

-- A probe that fails gives the controller state its reason, one that answers shows it working.
abbrev pub note_controller : Probe → Daemon → Daemon
note_controller (status answer) d = record_controller_success d
note_controller (failure reason) d = record d { controller_state = reason }

-- The body of the second loop, with the answer of `RetryThreadStatus`.
unfoldable pub reconcile_probe : Time → String → Candidate → Probe → Daemon → Daemon
reconcile_probe now id candidate probe d =
    let thread = thread_of d id in
    if still_awaited candidate thread
    then apply_reply (note_controller probe d) id (apply_probe d.config now candidate probe thread)
    else d

-- `RetryThreadStatus`, by thread and Codex home.
abbrev pub Prober : Type 0
Prober = String → String → Probe

unfoldable pub reconcile_probes : Time → Prober → List (String × Candidate) → Daemon → Daemon
reconcile_probes now prober [] d = d
reconcile_probes now prober ((id, candidate) ∷ rest) d =
    reconcile_probes now prober rest
      (reconcile_probe now id candidate (prober id candidate.codex_home) d)

-- A runner that reads no lifecycle has no prober.
unfoldable pub reconcile_awaiting_lifecycle : Time → Option Prober → Daemon → Daemon
reconcile_awaiting_lifecycle now none d = d
reconcile_awaiting_lifecycle now (some prober) d =
    reconcile_probes now prober (probe_candidates d.config now d.threads) (note_probes now d)

-- What a tick reads from outside.
pub record TickInput : Type 0 where
  pub now : Time
  pub stop_requested : Bool
  pub recovery : Option RecoveryRequest
  pub controller_answer : Option String
  pub controller_fail_open : FailOpen
  pub config : Loaded
  pub reloaded_at : Time
  pub rollouts : List Rollout
  pub scan_error : Option String
  pub controls : Controls
  pub memory : MemoryReading
  pub memory_fail_open : FailOpen
  pub cleanup_error : Option ControllerError
  pub prober : Option Prober
  pub state_written : Bool
  pub status_written : Bool

abbrev pub scan_message : Option String → String
scan_message none = ""
scan_message (some message) = message

-- `prune`, on the state that is part of the daemon.
unfoldable pub prune : Time → Daemon → Daemon
prune now d = record d {
  processed_events = prune_events now d.processed_events;
  files = prune_files now d.files;
  threads = prune_threads now d.threads;
}

-- From the reopened retries to the end of the first locked part.
unfoldable pub tick_controls : TickInput → Bool → Daemon → Daemon
tick_controls input controller_ready d =
    let reopened = reopen_restart_required input.now d in
    let ready = if controller_ready && not (is_some input.scan_error) then reopened else d in
    expire_awaiting input.now (refresh_controls input.now input.controls ready)

-- Between the two locked parts.
unfoldable pub tick_probes : TickInput → Daemon → Daemon
tick_probes input d =
    let checked = check_shared_memory input.now input.memory input.memory_fail_open d in
    let cleaned = reconcile_shared_backend_cleanup input.cleanup_error checked in
    reconcile_awaiting_lifecycle input.now input.prober
      (if d.config.shared_app_server_enabled then checked else cleaned)

-- The second locked part: the new daemon, and the jobs that it starts.
unfoldable pub tick_dispatch : Digest → TickInput → Daemon → Daemon × List RetryJob
unfolding prune persist_state write_status
tick_dispatch digest input d =
    let (dispatched, jobs) = dispatch_due digest input.now d in
    let pruned = prune input.now (record dispatched { last_scan = input.now }) in
    (write_status input.status_written (persist_state input.state_written pruned), jobs)

module _ (decode : Text → Option Json) (digest : Digest) (paths : Paths) where
  -- From the reload to the scanned events.
  unfoldable pub tick_events : TickInput → Daemon → Daemon
  tick_events input d =
      let reloaded = reload_config input.config input.reloaded_at d in
      let baseline = not reloaded.initialized in
      let (files, events) =
        scan_sessions paths reloaded.files reloaded.initialized input.rollouts input.now baseline in
      let noted = record reloaded {
        files = files;
        initialized = true;
        last_error = scan_message input.scan_error;
      } in
      handle_events decode digest input.now (sort_events events) noted

  unfoldable pub tick_running : TickInput → Daemon → Daemon × List RetryJob
  tick_running input d =
      let recovered = process_shared_recovery input.now input.recovery d in
      let (probed, ready) =
        controller_restart_ready input.now input.controller_answer input.controller_fail_open
          recovered in
      tick_dispatch digest input
        (tick_probes input (tick_controls input ready (tick_events input probed)))

  -- Without jobs where the stop file ends the daemon (`errStopRequested`).
  unfoldable pub tick : TickInput → Daemon → Daemon × Option (List RetryJob)
  tick input d =
      let (d', jobs) = tick_running input d in
      if input.stop_requested then (d, none) else (d', some jobs)
