-- ===== src/Thread/Queue.antt =====
-- How a tick of scripts/source/daemon.go takes a thread out of the queue, and how it comes back: the
-- new limits of `reloadConfigLocked` (retry_state.go), `dispatchDueLocked`, and `reopenRestartRequiredLocked`
-- with `canReopenTransportRetry` (transport_recovery.go).
use Prim.Native.Nat.{min}
use codex_auto_retry.Prelude.{
  ◌+◌, ◌-◌, ◌*◌, String, Bool, false, not, ◌&&◌, ◌||◌, Option, none, some, ◌==◌, ltb, leb, eqb,
  is_some, if◌then◌else◌, Time, second, is_zero, before, after,
}
use codex_auto_retry.Model.{
  ThreadState, PendingRetry, AwaitingRetry, StoppedRetry, action_dispatching,
}
use codex_auto_retry.Config.{Config}
use codex_auto_retry.Policy.{retry_limits, max_automatic_recovery_duration}
use codex_auto_retry.Goal.{goal_limit_restart_pending, held_conversation_still_allowed}
use codex_auto_retry.Thread.{Reply, no_change, stores, stop_pending_retry}
use codex_auto_retry.Thread.Awaiting.{stop_pending_for_controller}

abbrev pub relimit_awaiting : Config → Option AwaitingRetry → Option AwaitingRetry
relimit_awaiting config none = none
relimit_awaiting config (some awaiting) =
    let (recovery_limit, consecutive_limit) = retry_limits awaiting.failure_class config in
    some (record awaiting { max_attempts = recovery_limit; max_consecutive = consecutive_limit })

abbrev pub relimit_pending : Config → PendingRetry → PendingRetry
relimit_pending config pending =
    let (recovery_limit, consecutive_limit) = retry_limits pending.failure_class config in
    record pending { max_attempts = recovery_limit; max_consecutive = consecutive_limit }

abbrev pub over_limit : PendingRetry → Bool
over_limit pending =
    ltb pending.max_attempts pending.attempt
    || ltb pending.max_consecutive pending.consecutive_retry

-- The loop body of `reloadConfigLocked`. The awaited retry is changed through its pointer.
unfoldable pub relimit : Config → Time → ThreadState → Reply
relimit config now entry = elim entry.pending [
  | none ↦
      if is_some entry.awaiting
      then stores (record entry { awaiting = relimit_awaiting config entry.awaiting })
      else no_change
  | some old ↦
      let pending = relimit_pending config old in
      let thread = record entry {
        awaiting = relimit_awaiting config entry.awaiting;
        pending = some pending;
      } in
      if over_limit pending then stop_pending_retry config thread now else stores thread
]

-- The test that lets a held goal end its retry.
unfoldable pub hold_forbids_dispatch : ThreadState → Bool
hold_forbids_dispatch thread =
    thread.goal_held
    && not (goal_limit_restart_pending thread)
    && not (held_conversation_still_allowed thread thread.goal_status thread.goal_updated_at)

unfoldable pub drop_held : ThreadState → Reply
drop_held thread =
    if is_some thread.pending || is_some thread.awaiting
    then stores (record thread {
      pending = none;
      awaiting = none;
      recovery_attempts = 0;
      consecutive_retries = 0;
      current_turn_progress = false;
      stopped = none;
    })
    else no_change

-- What the second loop of `dispatchDueLocked` does with a thread: a reply, or a candidate.
pub data Selection : Type 0 where
  replies : Reply → Selection
  candidate : PendingRetry → Selection

unfoldable pub select_due : Time → Bool → ThreadState → Selection
select_due now is_active thread =
    if hold_forbids_dispatch thread then replies (drop_held thread) else elim thread.pending [
      | none ↦ replies no_change
      | some pending ↦
          if after pending.due_at now || is_some thread.awaiting || is_active
          then replies no_change
          else if not (is_zero thread.recovery_started_at)
              && ltb max_automatic_recovery_duration (now - thread.recovery_started_at)
          then replies (stop_pending_for_controller thread now "recovery_time_limit")
          else candidate pending
    ]

-- A candidate that gets one of the free places.
unfoldable pub dispatch_thread : Config → Time → PendingRetry → ThreadState → ThreadState
dispatch_thread config now pending thread = record thread {
  pending = none;
  last_auto_retry_at = now;
  awaiting = some (record {
    event_key = pending.event_key;
    failed_turn_id = pending.failed_turn_id;
    failed_at = pending.failed_at;
    origin_turn_started_at = pending.origin_turn_started_at;
    retry_turn_id = "";
    failure_class = pending.failure_class;
    action = action_dispatching;
    attempt = pending.attempt;
    max_attempts = pending.max_attempts;
    consecutive_retry = pending.consecutive_retry;
    max_consecutive = pending.max_consecutive;
    dispatch_failures = pending.dispatch_failures;
    parent_notified = pending.parent_notified;
    goal_limit_restart = pending.goal_limit_restart;
    dispatch_started_at = now;
    start_deadline = now + config.start_ack_timeout_seconds * second;
    started_at = 0;
    lifecycle_checks = 0;
    last_lifecycle_check_at = 0;
    codex_home = pending.codex_home;
    rollout_path = pending.rollout_path;
  });
}

-- Without a verified channel, a due retry is stopped before anything is sent.
unfoldable pub stop_due : Time → String → ThreadState → Reply
stop_due now reason thread = elim thread.pending [
  | none ↦ no_change
  | some pending ↦
      if after pending.due_at now || is_some thread.awaiting
      then no_change
      else stop_pending_for_controller thread now reason
]

-- `TransportBlocked` of an entry that has it, and the guess for an older entry.
abbrev pub known_unsent : Option Bool → Bool
known_unsent none = false
known_unsent (some blocked) = blocked

unfoldable pub was_unsent : ThreadState → StoppedRetry → Bool
was_unsent thread s =
    (known_unsent s.transport_blocked
      || (not (is_some s.transport_blocked)
          && eqb s.attempts 0
          && eqb s.consecutive_retries 0
          && not (after thread.last_auto_retry_at s.failed_at)))
    && not (s.failed_turn_id == "")
    && not (is_zero s.failed_at)
    && thread.last_started_turn_id == s.failed_turn_id
    && not (after thread.last_started_at s.failed_at)

-- `t` is set, not in the future, and at most 30 minutes old.
abbrev pub is_recent : Time → Time → Bool
is_recent now t =
    not (is_zero t) && not (before now t) && leb (now - t) max_automatic_recovery_duration

abbrev pub start_or_failure : ThreadState → StoppedRetry → Time
start_or_failure thread s =
    if is_zero thread.recovery_started_at then s.failed_at else thread.recovery_started_at

-- A turn started, by the user or not, or one was aborted, since the failure.
unfoldable pub overtaken : ThreadState → StoppedRetry → Bool
overtaken thread s =
    after thread.last_started_at s.failed_at
    || after thread.last_external_turn_at s.failed_at
    || (not (is_zero thread.last_aborted_at) && not (before thread.last_aborted_at s.failed_at))
    || (not (s.failed_turn_id == "") && thread.last_aborted_turn_id == s.failed_turn_id)

unfoldable pub can_reopen_stopped : ThreadState → StoppedRetry → Time → Bool
can_reopen_stopped thread s now =
    not s.historical
    && not (is_some thread.pending)
    && not (is_some thread.awaiting)
    && not (is_some thread.goal_stop)
    && not thread.goal_held
    && (s.reason == "codex_restart_required" || s.reason == "shared_app_server_disabled")
    && (thread.goal_status == "" || thread.goal_status == "active")
    && is_recent now (start_or_failure thread s)
    && is_recent now s.failed_at
    && (not (s.reason == "shared_app_server_disabled") || was_unsent thread s)
    && not (overtaken thread s)

-- The loop body of `reopenRestartRequiredLocked`.
unfoldable pub reopen_stopped : Config → Time → Bool → ThreadState → Reply
reopen_stopped config now is_active thread = elim thread.stopped [
  | none ↦ no_change
  | some s ↦
      let attempt = s.attempts + 1 in
      let consecutive = s.consecutive_retries + 1 in
      let (recovery, without_progress) = retry_limits s.failure_class config in
      let recovery_limit = min recovery s.max_attempts in
      let consecutive_limit = min without_progress s.max_consecutive in
      if not (can_reopen_stopped thread s now)
        || is_active
        || ltb recovery_limit attempt
        || ltb consecutive_limit consecutive
      then no_change
      else stores (record thread {
        stopped = none;
        recovery_started_at = start_or_failure thread s;
        recovery_attempts = attempt;
        consecutive_retries = consecutive;
        pending = some (record {
          event_key = s.event_key;
          failed_turn_id = s.failed_turn_id;
          failed_at = s.failed_at;
          origin_turn_started_at = s.origin_turn_started_at;
          failure_class = s.failure_class;
          due_at = now;
          codex_home = s.codex_home;
          rollout_path = s.rollout_path;
          attempt = attempt;
          max_attempts = recovery_limit;
          consecutive_retry = consecutive;
          max_consecutive = consecutive_limit;
          dispatch_failures = 0;
          parent_notified = false;
          goal_limit_restart = false;
        });
      })
]
