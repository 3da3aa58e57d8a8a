-- ===== src/Thread/Reopen.antt =====
-- When a retry that was stopped for want of a channel comes back (scripts/source/transport_recovery.go),
-- and when an awaited turn counts as dead (`reconcileAwaitingLifecycle` of daemon.go).
use text.Mathlib.TextPositions.{eq_refl}
use Prim.Native.Nat.{min}
use codex_auto_retry.Prelude.{
  ◌≢◌, ◌+◌, ◌-◌, ◌≤◌, ◌<◌, ◌≡◌, refl, arith, String, Bool, true, false, not, ◌&&◌, ◌||◌, none, some,
  Time, is_some, ◌==◌, eq_iff, ◌⊎◌,
}
use codex_auto_retry.Config.{Config}
use codex_auto_retry.Model.{ThreadState, PendingRetry, AwaitingRetry, StoppedRetry}
use codex_auto_retry.Policy.{max_automatic_recovery_duration, retry_limits, completed_retry_count}
use codex_auto_retry.Thread.{stopped_pending}
use codex_auto_retry.Thread.Queue.{
  can_reopen_stopped, reopen_stopped, overtaken, was_unsent, start_or_failure, is_recent, stop_due,
}
use codex_auto_retry.Thread.Awaiting.{
  transport_blocked, stop_pending_for_controller, advance_inactive_awaiting, exhaust_awaiting,
  requeue_next,
}
use codex_auto_retry.Thread.Lifecycle.{
  Candidate, status, apply_probe, probe_answered, retry_thread_is_active,
}
use codex_auto_retry.Thread.Budget.{pending_of}
use codex_auto_retry.Thread.Claims.{stored_or_same}

overtaken-none :
    (t : ThreadState) (s : StoppedRetry)
    → overtaken t s ≡ false
    → (t.last_started_at ≤ s.failed_at)
      × (t.last_external_turn_at ≤ s.failed_at)
      × (t.last_aborted_at ≡ 0 ⊎ t.last_aborted_at < s.failed_at)
unfolding overtaken
overtaken-none t s h = ground (arith, h)

is_recent-near :
    (now at : Time)
    → is_recent now at ≡ true
    → (at ≤ now) × (now - at ≤ max_automatic_recovery_duration)
is_recent-near now at h = ground (arith, h)

and-true : (a b : Bool) → (a && b) ≡ true → (a ≡ true) × (b ≡ true)
and-true true b h = (refl, h)
and-true false b h = absurd (cc)

-- The retry was stopped before anything was sent: it says so, or, where it does not tell, nothing was
-- counted and nothing sent since the failure; and the failed turn is the last that started.
abbrev pub Unsent : ThreadState → StoppedRetry → Type 0
Unsent t s =
    ((s.transport_blocked ≡ some true)
      ⊎ ((s.transport_blocked ≡ none)
          × (s.attempts ≡ 0)
          × (s.consecutive_retries ≡ 0)
          × (t.last_auto_retry_at ≤ s.failed_at)))
    × (s.failed_turn_id ≢ "")
    × (t.last_started_turn_id ≡ s.failed_turn_id)

was_unsent-Unsent : (t : ThreadState) (s : StoppedRetry) → was_unsent t s ≡ true → Unsent t s
unfolding was_unsent
was_unsent-Unsent t s h =
    ground (arith, h, eq_iff s.failed_turn_id "", eq_iff t.last_started_turn_id s.failed_turn_id)

-- The stopped retry may come back onto its thread.
pub record MayReturn (t : ThreadState) (s : StoppedRetry) (now : Time) : Type 0 where
  pub current : s.historical ≡ false
  pub free : (t.goal_held ≡ false) × (t.goal_stop ≡ none)
  pub quiet : (t.pending ≡ none) × (t.awaiting ≡ none)
  pub goal : (t.goal_status ≡ "") ⊎ (t.goal_status ≡ "active")
  pub recent : (s.failed_at ≤ now) × (now - s.failed_at ≤ max_automatic_recovery_duration)
  pub outage :
      (t.recovery_started_at ≡ 0)
      ⊎ ((t.recovery_started_at ≤ now)
          × (now - t.recovery_started_at ≤ max_automatic_recovery_duration))
  pub last_turn : (t.last_started_at ≤ s.failed_at) × (t.last_external_turn_at ≤ s.failed_at)
  pub not_aborted : t.last_aborted_at ≡ 0 ⊎ t.last_aborted_at < s.failed_at
  pub reason :
      (s.reason ≡ "codex_restart_required")
      ⊎ ((s.reason ≡ "shared_app_server_disabled") × Unsent t s)

can_reopen_stopped-parts :
    (t : ThreadState) (s : StoppedRetry) (now : Time)
    → not s.historical ≡ true
    → not (is_some t.pending) ≡ true
    → not (is_some t.awaiting) ≡ true
    → not (is_some t.goal_stop) ≡ true
    → not t.goal_held ≡ true
    → (s.reason == "codex_restart_required" || s.reason == "shared_app_server_disabled") ≡ true
    → (t.goal_status == "" || t.goal_status == "active") ≡ true
    → is_recent now (start_or_failure t s) ≡ true
    → is_recent now s.failed_at ≡ true
    → (not (s.reason == "shared_app_server_disabled") || was_unsent t s) ≡ true
    → not (overtaken t s) ≡ true
    → MayReturn t s now
can_reopen_stopped-parts t s now current pending awaiting stop held reason goal late recent unsent
      fresh =
    let near = is_recent-near now s.failed_at recent in
    let first = overtaken-none t s (ground (arith, fresh)) in
    record {
      current = ground (arith, current);
      free = ground (arith, held, stop);
      quiet = ground (arith, pending, awaiting);
      goal = ground (arith, goal, eq_iff t.goal_status "", eq_iff t.goal_status "active");
      recent = near;
      outage = ground (arith, late);
      last_turn = (first.0, first.1);
      not_aborted = first.2;
      reason = ground (
        arith,
        reason,
        unsent,
        was_unsent-Unsent t s,
        eq_iff s.reason "codex_restart_required",
        eq_iff s.reason "shared_app_server_disabled",
      );
    }

can_reopen_stopped-MayReturn :
    (t : ThreadState) (s : StoppedRetry) (now : Time)
    → can_reopen_stopped t s now ≡ true
    → MayReturn t s now
unfolding can_reopen_stopped
can_reopen_stopped-MayReturn t s now h =
    let (h9, overtaken_not) = and-true _ _ h in
    let (h8, unsent) = and-true _ _ h9 in
    let (h7, recent) = and-true _ _ h8 in
    let (h6, late) = and-true _ _ h7 in
    let (h5, goal) = and-true _ _ h6 in
    let (h4, reason) = and-true _ _ h5 in
    let (h3, held) = and-true _ _ h4 in
    let (h2, stop) = and-true _ _ h3 in
    let (h1, awaiting) = and-true _ _ h2 in
    let (current, pending) = and-true _ _ h1 in
    can_reopen_stopped-parts t s now current pending awaiting stop held reason goal late recent
      unsent overtaken_not

-- The retry of the very failure that was stopped, with its old budget.
pub record GoesOn (config : Config) (now : Time) (s : StoppedRetry) (p : PendingRetry)
    : Type 0 where
  pub event : p.event_key ≡ s.event_key
  pub turn : p.failed_turn_id ≡ s.failed_turn_id
  pub failed : p.failed_at ≡ s.failed_at
  pub due : p.due_at ≡ now
  pub attempt : p.attempt ≡ s.attempts + 1
  pub consecutive : p.consecutive_retry ≡ s.consecutive_retries + 1
  pub within_stored : (p.attempt ≤ s.max_attempts) × (p.consecutive_retry ≤ s.max_consecutive)
  pub within_configured :
      (p.attempt ≤ (retry_limits s.failure_class config).0)
      × (p.consecutive_retry ≤ (retry_limits s.failure_class config).1)
  pub attempt_limit : p.max_attempts ≡ min (retry_limits s.failure_class config).0 s.max_attempts
  pub consecutive_limit :
      p.max_consecutive ≡ min (retry_limits s.failure_class config).1 s.max_consecutive

-- A stopped retry comes back only for one of the two transport reasons, for a failure and an outage
-- of the last 30 minutes, onto a thread whose goal is not held and where no turn has started and none was aborted
-- since the failure, no retry waits or is awaited and no job runs; one that was stopped without a
-- channel comes back only if it was never sent. It is due at once and goes on with its old budget: one
-- attempt more than was made, within both limits that are configured and both that it had.
pub reopen_stopped-budget :
    (config : Config) (now : Time) (active : Bool) (t : ThreadState) (s : StoppedRetry)
    (p : PendingRetry)
    → t.stopped ≡ some s
    → pending_of (reopen_stopped config now active t).stored ≡ some p
    → (active ≡ false) × MayReturn t s now × GoesOn config now s p
unfolding reopen_stopped
reopen_stopped-budget config now active t s p stop back =
    let may : can_reopen_stopped t s now ≡ true = ground (arith, stop, back) in
    let returns = can_reopen_stopped-MayReturn t s now may in
    let idle : active ≡ false = ground (arith, stop, back) in
    let goes : GoesOn config now s p = ground (arith, stop, back, may, idle) in
    (idle, returns, goes)

-- Without a channel, a due retry that is not awaited is stopped, and once the stopped one may come back and
-- no job of the thread runs, the same retry waits again, due at once and with the same counters and the
-- smaller ones of its own limits and the configured ones, if the counters are at least 1 and within
-- both; what is known of sending it starts anew.
pub reopen_stopped-stop_due :
    (config : Config) (now later : Time) (t : ThreadState) (p : PendingRetry)
    → t.pending ≡ some p
    → p.due_at ≤ now
    → can_reopen_stopped
        (stored_or_same t (stop_due now "shared_app_server_disabled" t).stored)
        (stopped_pending p now "shared_app_server_disabled"
          (some (transport_blocked t p "shared_app_server_disabled")))
        later
      ≡ true
    → (1 ≤ p.attempt) × (1 ≤ p.consecutive_retry)
    → (p.attempt ≤ p.max_attempts) × (p.consecutive_retry ≤ p.max_consecutive)
    → (p.attempt ≤ (retry_limits p.failure_class config).0)
      × (p.consecutive_retry ≤ (retry_limits p.failure_class config).1)
    → t.awaiting ≡ none
    → let stopped = stored_or_same t (stop_due now "shared_app_server_disabled" t).stored in
      pending_of (reopen_stopped config later false stopped).stored
      ≡ some (record p {
        due_at = later;
        max_attempts = min (retry_limits p.failure_class config).0 p.max_attempts;
        max_consecutive = min (retry_limits p.failure_class config).1 p.max_consecutive;
        dispatch_failures = 0;
        parent_notified = false;
        goal_limit_restart = false;
      })
unfolding stop_due stop_pending_for_controller reopen_stopped completed_retry_count
reopen_stopped-stop_due config now later t p waiting due can counted within limits quiet =
    ground (arith, waiting, due, can, counted, within, limits, quiet)

-- The retries that a probe leaves under way, waiting or awaited.
abbrev pub probed : Config → Time → Candidate → String → ThreadState → ThreadState
probed config now candidate answer t =
    stored_or_same t (apply_probe config now candidate (status answer) t).stored

-- An inactive answer never gives up an awaited turn that no inactive answer has been counted for: it is
-- still awaited, and only a second inactive answer in a row takes the retry away from it. If the second
-- answer is active instead, then the next one, whatever it is, leaves it awaited again.
pub apply_probe-confirms :
    (config : Config) (now later last : Time) (c : Candidate) (first second_answer third : String)
    (t : ThreadState) (a : AwaitingRetry)
    → t.awaiting ≡ some a
    → a.event_key ≡ c.event_key
    → a.retry_turn_id ≡ c.turn_id
    → a.lifecycle_checks ≡ 0
    → retry_thread_is_active first ≡ false
    → let once = probed config now c first t in
      let twice = probed config later c second_answer once in
      let thrice = probed config last c third twice in
      (is_some once.awaiting ≡ true)
      × (is_some twice.awaiting ≡ retry_thread_is_active second_answer)
      × (is_some thrice.awaiting ≡ retry_thread_is_active second_answer)
unfolding apply_probe probe_answered advance_inactive_awaiting exhaust_awaiting requeue_next
apply_probe-confirms config now later last c first second_answer third t a awaited key turn none_yet
      dead =
    ground (arith, awaited, key, turn, none_yet, dead, eq_refl c.event_key, eq_refl c.turn_id)
