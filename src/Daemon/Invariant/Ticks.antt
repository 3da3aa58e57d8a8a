-- ===== src/Daemon/Invariant/Ticks.antt =====
-- A tick of scripts/source/daemon.go keeps every thread well-formed.
use codex_auto_retry.Prelude.{
  Bool, true, false, if◌then◌else◌, String, List, [], ◌∷◌, Option, none, some, arith, Time, ◌&&◌,
  not, is_some,
}
use codex_auto_retry.Text.{Text}
use codex_auto_retry.Model.{ThreadState}
use codex_auto_retry.Config.{Config}
use codex_auto_retry.Classifier.CcSwitch.{Json}
use codex_auto_retry.Digest.{Digest}
use codex_auto_retry.Thread.Lifecycle.{Candidate, Probe, status, failure, choose_candidate}
use codex_auto_retry.Thread.WellFormed.{IsWellFormed, Keeps}
use codex_auto_retry.Thread.WellFormed.Queue.{apply_probe-Keeps}
use codex_auto_retry.Daemon.{Daemon, RetryJob, thread_of}
use codex_auto_retry.Daemon.Job.{record_controller_success}
use codex_auto_retry.Scanner.{Paths}
use codex_auto_retry.State.Kept.{prune_threads-All}
use codex_auto_retry.Daemon.Controller.{reconcile_shared_backend_cleanup}
use codex_auto_retry.Daemon.Memory.{check_shared_memory}
use codex_auto_retry.Daemon.Recovery.{process_shared_recovery}
use codex_auto_retry.Daemon.Dispatch.{dispatch_due}
use codex_auto_retry.Daemon.Controller.{controller_restart_ready}
use codex_auto_retry.Daemon.Status.{persist_state}
use codex_auto_retry.Daemon.Tick.{
  probe_time, note_probes, still_awaited, note_controller, reconcile_probe, Prober,
  reconcile_probes, reconcile_awaiting_lifecycle, TickInput, prune, tick_events, tick_controls,
  tick_probes, tick_dispatch, tick_running, tick,
}
use codex_auto_retry.Daemon.Invariant.Controller.{
  same_threads, controller_restart_ready-threads, check_shared_memory-threads,
  reconcile_shared_backend_cleanup-threads, persist_state-threads,
  process_shared_recovery-AllWellFormed,
}
use codex_auto_retry.Daemon.Invariant.Loops.{
  AllWellFormed, choose-AllWellFormed, apply_reply-AllWellFormed, over_threads-AllWellFormed,
  thread_of-IsWellFormed, reload_config-AllWellFormed, reopen_restart_required-AllWellFormed,
  refresh_controls-AllWellFormed, expire_awaiting-AllWellFormed,
}
use codex_auto_retry.Daemon.Invariant.Events.{handle_events-AllWellFormed}
use codex_auto_retry.Daemon.Invariant.Collected.{dispatch_due-AllWellFormed}

choose_first :
    (b : Bool) (x y : Daemon × Option (List RetryJob))
    → AllWellFormed x.0
    → AllWellFormed y.0
    → AllWellFormed (if b then x else y).0
choose_first true x y h k = h
choose_first false x y h k = k

probe_time-Keeps :
    (config : Config) (now : Time) (t : ThreadState)
    → IsWellFormed t
    → Keeps (probe_time (choose_candidate config now t))
unfolding choose_candidate
probe_time-Keeps config now t v = ground arith

note_controller-AllWellFormed :
    (p : Probe) (d : Daemon) → AllWellFormed d → AllWellFormed (note_controller p d)
unfolding record_controller_success
note_controller-AllWellFormed (status answer) d h = ground arith
note_controller-AllWellFormed (failure reason) d h = h

pub reconcile_probe-AllWellFormed :
    (now : Time) (id : String) (c : Candidate) (p : Probe) (d : Daemon)
    → AllWellFormed d
    → AllWellFormed (reconcile_probe now id c p d)
unfolding reconcile_probe
reconcile_probe-AllWellFormed now id c p d h =
    choose-AllWellFormed (still_awaited c (thread_of d id)) _ d
      (apply_reply-AllWellFormed _ id _ (note_controller-AllWellFormed p d h)
        (apply_probe-Keeps d.config now (thread_of d id) (thread_of-IsWellFormed d id h) c p))
      h

reconcile_probes-AllWellFormed :
    (now : Time) (prober : Prober) (cs : List (String × Candidate)) (d : Daemon)
    → AllWellFormed d
    → AllWellFormed (reconcile_probes now prober cs d)
unfolding reconcile_probes
reconcile_probes-AllWellFormed now prober [] d h = h
reconcile_probes-AllWellFormed now prober ((id, c) ∷ rest) d h =
    reconcile_probes-AllWellFormed now prober rest _
      (reconcile_probe-AllWellFormed now id c (prober id c.codex_home) d h)

pub note_probes-AllWellFormed :
    (now : Time) (d : Daemon) → AllWellFormed d → AllWellFormed (note_probes now d)
unfolding note_probes
note_probes-AllWellFormed now d h =
    over_threads-AllWellFormed _ (λ id t v. probe_time-Keeps d.config now t v) d d.threads h h.0

reconcile_awaiting_lifecycle-AllWellFormed :
    (now : Time) (prober : Option Prober) (d : Daemon)
    → AllWellFormed d
    → AllWellFormed (reconcile_awaiting_lifecycle now prober d)
unfolding reconcile_awaiting_lifecycle
reconcile_awaiting_lifecycle-AllWellFormed now none d h = h
reconcile_awaiting_lifecycle-AllWellFormed now (some prober) d h =
    reconcile_probes-AllWellFormed now prober _ _ (note_probes-AllWellFormed now d h)

prune-AllWellFormed : (now : Time) (d : Daemon) → AllWellFormed d → AllWellFormed (prune now d)
unfolding prune
prune-AllWellFormed now d h = prune_threads-All IsWellFormed now d.threads h

pub tick_probes-AllWellFormed :
    (input : TickInput) (d : Daemon) → AllWellFormed d → AllWellFormed (tick_probes input d)
unfolding tick_probes
tick_probes-AllWellFormed input d h =
    let checked = check_shared_memory input.now input.memory input.memory_fail_open d in
    let kept =
      same_threads checked d
        (check_shared_memory-threads input.now input.memory input.memory_fail_open d) h in
    let cleaned = reconcile_shared_backend_cleanup input.cleanup_error checked in
    reconcile_awaiting_lifecycle-AllWellFormed input.now input.prober _ (
      choose-AllWellFormed d.config.shared_app_server_enabled checked cleaned kept (
        same_threads cleaned checked
          (reconcile_shared_backend_cleanup-threads input.cleanup_error checked) kept))

pub tick_controls-AllWellFormed :
    (input : TickInput) (controller_ready : Bool) (d : Daemon)
    → AllWellFormed d
    → AllWellFormed (tick_controls input controller_ready d)
unfolding tick_controls
tick_controls-AllWellFormed input controller_ready d h = expire_awaiting-AllWellFormed input.now _ (
    refresh_controls-AllWellFormed input.now input.controls _ (
      choose-AllWellFormed (controller_ready && not (is_some input.scan_error)) _ _
        (reopen_restart_required-AllWellFormed input.now d h) h))

pub tick_dispatch-AllWellFormed :
    (digest : Digest) (input : TickInput) (d : Daemon)
    → AllWellFormed d
    → AllWellFormed (tick_dispatch digest input d).0
unfolding tick_dispatch
tick_dispatch-AllWellFormed digest input d h =
    let dispatched = (dispatch_due digest input.now d).0 in
    let pruned = prune input.now (record dispatched { last_scan = input.now }) in
    let kept =
      prune-AllWellFormed input.now (record dispatched { last_scan = input.now })
        (dispatch_due-AllWellFormed digest input.now d h) in
    same_threads (persist_state input.state_written pruned) pruned
      (persist_state-threads input.state_written pruned) kept

module _ (decode : Text → Option Json) (digest : Digest) (paths : Paths) where
  pub tick_events-AllWellFormed :
      (input : TickInput) (d : Daemon)
      → AllWellFormed d
      → AllWellFormed (tick_events decode digest paths input d)
  unfolding tick_events
  tick_events-AllWellFormed input d h =
      handle_events-AllWellFormed decode digest input.now _ _
        (reload_config-AllWellFormed input.config input.reloaded_at d h)

  -- Every tick, whatever it reads, keeps every thread well-formed, with one entry.
  pub tick-AllWellFormed :
      (input : TickInput) (d : Daemon)
      → AllWellFormed d
      → AllWellFormed (tick decode digest paths input d).0
  unfolding tick tick_running
  tick-AllWellFormed input d h =
      let recovered = process_shared_recovery input.now input.recovery d in
      let probed =
        controller_restart_ready input.now input.controller_answer input.controller_fail_open
          recovered in
      let kept =
        same_threads probed.0 recovered
          (controller_restart_ready-threads input.now input.controller_answer
            input.controller_fail_open recovered)
          (process_shared_recovery-AllWellFormed input.now input.recovery d h) in
      choose_first input.stop_requested (d, none) _ h
        (tick_dispatch-AllWellFormed digest input _ (
          tick_probes-AllWellFormed input _ (
            tick_controls-AllWellFormed input probed.1 _
              (tick_events-AllWellFormed input probed.0 kept))))
