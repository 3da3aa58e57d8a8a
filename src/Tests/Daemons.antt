-- ===== src/Tests/Daemons.antt =====
-- The theorems on the daemon's operations, each at the daemon of the data.
use Prim.Native.Nat.{max}
use codex_auto_retry.Thread.Queue.{reopen_stopped}
use codex_auto_retry.Thread.Awaiting.{expire_unacknowledged}
use codex_auto_retry.Prelude.{
  Table, All, [], ◌∷◌, ◌-◌, ◌≤◌, ◌≡◌, refl, true, false, some, none, length, entry, has_entry,
  assign,
}
use codex_auto_retry.Model.{PendingRetry, ThreadState}
use codex_auto_retry.Config.{Config, default_config}
use codex_auto_retry.Thread.{ScannedEvent}
use codex_auto_retry.Thread.Queue.{select_due, relimit, hold_forbids_dispatch}
use codex_auto_retry.Thread.Budget.{pending_of}
use codex_auto_retry.Thread.Control.{reconcile_startup_state}
use codex_auto_retry.Policy.{retry_limits, retry_limits_for_decision}
use codex_auto_retry.Daemon.{
  reopen_restart_required, expire_awaiting, is_active, Daemon, RetryJob, loaded, reload_config,
  install_config, over_threads, apply_reply, reconcile_startup,
}
use codex_auto_retry.Daemon.Handle.{handle_event, handle_events}
use codex_auto_retry.Daemon.Dispatch.{
  dispatch_recoveries, start_recoveries, insert_due, dispatch_due, sort_due, goal_stops,
  start_goal_blocks, collect_candidates, no_transport,
}
use codex_auto_retry.Daemon.Job.{begin_job, finish_job, end_job}
use codex_auto_retry.Daemon.Invariant.Loops.{AllWellFormed}
use codex_auto_retry.Daemon.Reach.{Reachable, starts, steps, begins, ends, Reachable-AllWellFormed}
use codex_auto_retry.Daemon.Capacity.{dispatch_due-capacity}
use codex_auto_retry.Daemon.Justified.{Justified, dispatch_due-Justified}
use codex_auto_retry.Daemon.Once.{handle_event-once}
use codex_auto_retry.Daemon.Loop.{own_reply, loops-any_order}
use codex_auto_retry.Daemon.Limits.{IsWithinLimits, reload_config-IsWithinLimits}
use codex_auto_retry.Daemon.Release.{finish_job-isolated}
use codex_auto_retry.Scanner.{Paths}
use codex_auto_retry.Tests.Data.{
  waiting_thread, awaiting_thread, stopped_thread, no_json, digest, now, later, scanned, pending,
  daemon, job, deferred, daemon-AllWellFormed,
}

abbrev paths : Paths
paths = record { thread_of_path = λ path. path; belongs_to = λ path home. true }

-- The daemon starts, begins the job of thread `b`, and sees it deferred.
abbrev begun : Daemon
begun = (begin_job job (reconcile_startup now daemon)).0

abbrev ended : Daemon
ended = end_job job later deferred none true true begun

ended-Reachable : Reachable no_json digest paths daemon ended
ended-Reachable =
    steps begun ended (steps (reconcile_startup now daemon) begun (starts now) (begins job))
      (ends job later deferred none true true)

Reachable-AllWellFormed_example : AllWellFormed ended
Reachable-AllWellFormed_example =
    Reachable-AllWellFormed no_json digest paths daemon ended daemon-AllWellFormed ended-Reachable

dispatch_due-capacity_example :
    let (d', jobs) = dispatch_due digest now daemon in
    (length jobs ≤ daemon.config.max_parallel_retries - length daemon.active)
    × (length d'.active ≤ max daemon.config.max_parallel_retries (length daemon.active))
dispatch_due-capacity_example = dispatch_due-capacity digest now daemon

dispatch_due-Justified_example :
    All (Justified digest now daemon) (dispatch_due digest now daemon).1
dispatch_due-Justified_example = dispatch_due-Justified digest now daemon daemon-AllWellFormed.1

-- One job is started.
dispatch_due_starts_one : length (dispatch_due digest now daemon).1 ≡ 1
unfolding dispatch_due no_transport default_config collect_candidates goal_stops start_goal_blocks
    sort_due select_due hold_forbids_dispatch entry dispatch_recoveries start_recoveries insert_due
dispatch_due_starts_one = refl

abbrev paused_daemon : Daemon
paused_daemon = record daemon { paused = true }

abbrev mirror : ScannedEvent
mirror = record scanned { rollout_path = "mirror/a.jsonl"; codex_home = "mirror"; mirrored = true }

handle_event-once_example :
    let handled = handle_event no_json digest now scanned daemon in
    let between = handle_events no_json digest later (scanned ∷ []) handled in
    handle_event no_json digest later mirror between ≡ between
handle_event-once_example =
    handle_event-once no_json digest now later later scanned mirror (scanned ∷ []) daemon refl

abbrev tighter : Config
tighter = record default_config { max_recovery_attempts = 2 }

abbrev reordered : Table ThreadState
reordered = ("c", stopped_thread) ∷ ("b", awaiting_thread) ∷ ("a", waiting_thread) ∷ []

loops-any_order_example :
    let e = record daemon { threads = reordered } in
    let thread = entry daemon.threads "b" in
    (entry (reconcile_startup now e).threads "b"
      ≡ own_reply (λ t. reconcile_startup_state now t) thread)
    × (entry (reload_config (loaded tighter) now e).threads "b"
        ≡ own_reply (λ t. relimit tighter now t) thread)
    × (entry (reopen_restart_required now e).threads "b"
        ≡ own_reply (λ t. reopen_stopped daemon.config now (is_active daemon "b") t) thread)
    × (entry (expire_awaiting now e).threads "b"
        ≡ own_reply (λ t. expire_unacknowledged daemon.config now (is_active daemon "b") t) thread)
unfolding entry
loops-any_order_example =
    loops-any_order now tighter daemon reordered "b" ((refl, (refl, tt)), ((refl, tt), (tt, tt)))
      refl

abbrev limited : PendingRetry
limited = record pending { max_attempts = 2 }

limited-waits :
    pending_of (entry (reload_config (loaded tighter) now daemon).threads "a") ≡ some limited
unfolding reload_config install_config default_config over_threads apply_reply entry assign relimit
    retry_limits retry_limits_for_decision
limited-waits = refl

reload_config-IsWithinLimits_example : IsWithinLimits tighter limited
reload_config-IsWithinLimits_example =
    reload_config-IsWithinLimits tighter now daemon "a" limited daemon-AllWellFormed.1 limited-waits

-- The thread of this job waits for its retry instead.
abbrev stale_job : RetryJob
stale_job = record job { attempt = 3 }

finish_job-isolated_example :
    let d' = finish_job job later deferred none daemon in
    (has_entry d'.active "b" ≡ false)
    × (entry d'.active "a" ≡ entry daemon.active "a")
    × (entry d'.threads "a" ≡ entry daemon.threads "a")
finish_job-isolated_example = finish_job-isolated job later deferred none daemon "a" refl
