-- ===== src/Thread/Awaiting.antt =====
-- What scripts/source/daemon.go does with a dispatched retry that nothing completes: back into the
-- queue, on to the next attempt, or to a stop.
use codex_auto_retry.Prelude.{
  ℕ, ◌+◌, ◌-◌, ◌*◌, String, Bool, true, false, not, ◌&&◌, ◌||◌, none, some, ◌==◌, ltb, leb, eqb,
  if◌then◌else◌, Time, minute, is_zero, after,
}
use codex_auto_retry.Model.{ThreadState, PendingRetry, AwaitingRetry, StoppedRetry}
use codex_auto_retry.Config.{Config}
use codex_auto_retry.Policy.{
  completed_retry_count, retry_delay, retry_stop_reason_for_class, controller_failure_needs_action,
}
use codex_auto_retry.Thread.{Reply, no_change, stores, goal_reason, goal_stop_for, stopped_pending}
use codex_auto_retry.Thread.Control.{requeued}

-- `stoppedRetryDisplayWindow` of management.go.
abbrev pub stopped_retry_display_window : ℕ
stopped_retry_display_window = 60 * minute

abbrev pub fails_with : ThreadState → String → Reply
fails_with thread reason = record { stored = some thread; cancels = false; error = some reason }

-- The stopped entry that an awaited retry leaves.
abbrev pub stopped_awaiting : AwaitingRetry → Time → ℕ → ℕ → String → Bool → StoppedRetry
stopped_awaiting awaiting now attempts consecutive reason historical = record {
  event_key = awaiting.event_key;
  failed_turn_id = awaiting.failed_turn_id;
  failed_at = awaiting.failed_at;
  origin_turn_started_at = awaiting.origin_turn_started_at;
  failure_class = awaiting.failure_class;
  stopped_at = now;
  codex_home = awaiting.codex_home;
  rollout_path = awaiting.rollout_path;
  attempts = attempts;
  max_attempts = awaiting.max_attempts;
  consecutive_retries = consecutive;
  max_consecutive = awaiting.max_consecutive;
  reason = reason;
  historical = historical;
  transport_blocked = none;
}

-- `stopAwaitingForControllerLocked`
unfoldable pub stop_awaiting_for_controller : ThreadState → Time → String → Reply
stop_awaiting_for_controller thread now reason = elim thread.awaiting [
  | none ↦ no_change
  | some awaiting ↦
      let attempts = completed_retry_count awaiting.attempt in
      let consecutive = completed_retry_count awaiting.consecutive_retry in
      fails_with
        (record thread {
          pending = none;
          awaiting = none;
          goal_stop = none;
          recovery_attempts = attempts;
          consecutive_retries = consecutive;
          stopped = some (stopped_awaiting awaiting now attempts consecutive reason false);
        })
        reason
]

-- Nothing was sent, and the failure is recent: the stop may be taken back once a channel is ready.
abbrev pub transport_blocked : ThreadState → PendingRetry → String → Bool
transport_blocked thread pending reason =
    reason == "shared_app_server_disabled"
    && eqb pending.dispatch_failures 0
    && not pending.parent_notified
    && not pending.goal_limit_restart
    && not (is_zero pending.failed_at)
    && not (after thread.last_auto_retry_at pending.failed_at)

-- `stopPendingForControllerLocked`
unfoldable pub stop_pending_for_controller : ThreadState → Time → String → Reply
stop_pending_for_controller thread now reason = elim thread.pending [
  | none ↦ no_change
  | some pending ↦
      fails_with
        (record thread {
          pending = none;
          awaiting = none;
          goal_stop = none;
          recovery_attempts = completed_retry_count pending.attempt;
          consecutive_retries = completed_retry_count pending.consecutive_retry;
          current_turn_progress = false;
          stopped =
              some (
                stopped_pending pending now reason
                  (some (transport_blocked thread pending reason)));
        })
        reason
]

abbrev pub at_least_one : ℕ → ℕ
at_least_one n = if ltb n 1 then 1 else n

abbrev pub counted : ℕ → Bool → ℕ
counted failures count_failure = if count_failure then failures + 1 else failures

-- `rescheduleAwaitingWithPolicyLocked`
unfoldable pub reschedule_awaiting : Config → ThreadState → Time → String → Bool → Reply
reschedule_awaiting config thread now reason count_failure = elim thread.awaiting [
  | none ↦ no_change
  | some awaiting ↦
      let failures = counted awaiting.dispatch_failures count_failure in
      if controller_failure_needs_action reason
        || (count_failure && leb config.controller_failure_limit failures)
      then stop_awaiting_for_controller thread now reason
      else stores (record thread {
        awaiting = none;
        pending =
            some (requeued awaiting (now + retry_delay (at_least_one failures) config) failures);
      })
]

-- `expireUnacknowledgedLocked`, for one thread; `is_active` tells whether its job runs.
unfoldable pub expire_unacknowledged : Config → Time → Bool → ThreadState → Reply
expire_unacknowledged config now is_active thread = elim thread.awaiting [
  | none ↦ no_change
  | some awaiting ↦
      if not (awaiting.retry_turn_id == "") || after awaiting.start_deadline now || is_active
      then no_change
      else reschedule_awaiting config thread now "start_not_acknowledged" true
]

abbrev pub or_dispatch_start : AwaitingRetry → Time
or_dispatch_start awaiting =
    if is_zero awaiting.started_at then awaiting.dispatch_started_at else awaiting.started_at

abbrev pub is_historical : AwaitingRetry → Time → Bool
is_historical awaiting now =
    not (is_zero (or_dispatch_start awaiting))
    && ltb stopped_retry_display_window (now - or_dispatch_start awaiting)

abbrev pub next_consecutive : Bool → AwaitingRetry → ℕ
next_consecutive progress awaiting = if progress then 1 else awaiting.consecutive_retry + 1

unfoldable pub exhaust_awaiting : Config → ThreadState → AwaitingRetry → Time → ℕ → ℕ → ThreadState
exhaust_awaiting config thread awaiting now attempt consecutive =
    let reason = goal_reason thread awaiting.failure_class (
      retry_stop_reason_for_class awaiting.failure_class config attempt awaiting.max_attempts
        consecutive awaiting.max_consecutive) in
    record thread {
      pending = none;
      awaiting = none;
      recovery_attempts = completed_retry_count attempt;
      consecutive_retries = completed_retry_count consecutive;
      current_turn_progress = false;
      stopped = some (
          stopped_awaiting awaiting now (completed_retry_count attempt)
            (completed_retry_count consecutive) reason (is_historical awaiting now));
      goal_stop = goal_stop_for reason awaiting.event_key now thread.goal_stop;
    }

unfoldable pub requeue_next : Config → ThreadState → AwaitingRetry → Time → ℕ → ℕ → ThreadState
requeue_next config thread awaiting now attempt consecutive =
    let again =
      requeued awaiting (now + retry_delay consecutive config) awaiting.dispatch_failures in
    record thread {
      recovery_attempts = attempt;
      consecutive_retries = consecutive;
      current_turn_progress = false;
      awaiting = none;
      stopped = none;
      goal_stop = none;
      pending = some (record again { attempt = attempt; consecutive_retry = consecutive });
    }

-- `advanceInactiveAwaitingLocked`
unfoldable pub advance_inactive_awaiting : Config → Time → ThreadState → Reply
advance_inactive_awaiting config now thread = elim thread.awaiting [
  | none ↦ no_change
  | some awaiting ↦
      let attempt = awaiting.attempt + 1 in
      let consecutive = next_consecutive thread.current_turn_progress awaiting in
      if ltb awaiting.max_attempts attempt || ltb awaiting.max_consecutive consecutive
      then stores (exhaust_awaiting config thread awaiting now attempt consecutive)
      else stores (requeue_next config thread awaiting now attempt consecutive)
]
