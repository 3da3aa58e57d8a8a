-- ===== src/Thread/Redispatch.antt =====
-- A retry goes out and comes back (`dispatchDueLocked` and `rescheduleAwaitingWithPolicyLocked` of
-- scripts/source/daemon.go, `applyControlCommandLocked` and `reloadConfigLocked` of retry_state.go).
use codex_auto_retry.Prelude.{
  ◌+◌, ◌-◌, ◌≤◌, ◌<◌, ◌≡◌, arith, String, Bool, true, false, Option, none, some, Time, ◌⊎◌, ◌↔◌,
  ◌≢◌, eq_iff,
}
use codex_auto_retry.Model.{ThreadState, PendingRetry, StoppedRetry}
use codex_auto_retry.Config.{Config}
use codex_auto_retry.Policy.{
  max_automatic_recovery_duration, retry_delay, controller_failure_needs_action,
  completed_retry_count,
}
use codex_auto_retry.Goal.{
  goal_limit_restart_pending, held_conversation_still_allowed, held_conversation_allowed,
}
use codex_auto_retry.Thread.Claims.{stored_or_same}
use codex_auto_retry.Thread.{Reply, no_change}
use codex_auto_retry.Thread.Control.{
  command_restart_retry, command_retry_now, restart_stopped, restarted_retry, apply_control_command,
}
use codex_auto_retry.Thread.Awaiting.{reschedule_awaiting, stop_awaiting_for_controller}
use codex_auto_retry.Thread.Budget.{pending_of}
use codex_auto_retry.Thread.Queue.{
  Selection, dispatch_thread, select_due, candidate, replies, hold_forbids_dispatch,
}

-- What the next tick makes of a thread that a reply stores, none of whose jobs runs.
abbrev pub select_due_reply : Time → Reply → Selection
select_due_reply now reply = elim reply.stored [
  | none ↦ replies no_change
  | some t ↦ select_due now false t
]

-- A dispatch that fails for a passing reason, below the limit of such failures, puts the very retry back
-- that was dispatched, with one more failure and a later time: it uses up no attempt.
pub reschedule_awaiting-dispatch_thread :
    (config : Config) (now later : Time) (reason : String) (p : PendingRetry) (t : ThreadState)
    → controller_failure_needs_action reason ≡ false
    → p.dispatch_failures + 1 < config.controller_failure_limit
    → pending_of
        (reschedule_awaiting config (dispatch_thread config now p t) later reason true).stored
      ≡ some (record p {
        dispatch_failures = p.dispatch_failures + 1;
        due_at = later + retry_delay (p.dispatch_failures + 1) config;
      })
unfolding reschedule_awaiting dispatch_thread
reschedule_awaiting-dispatch_thread config now later reason p t passing few =
    ground (arith, passing, few)

-- The counters that a stop keeps: the attempt that was under way is not counted.
pub record StopsAs (reason : String) (now : Time) (p : PendingRetry) (s : StoppedRetry)
    : Type 0 where
  pub reason_kept : s.reason ≡ reason
  pub at : s.stopped_at ≡ now
  pub event : s.event_key ≡ p.event_key
  pub turn : s.failed_turn_id ≡ p.failed_turn_id
  pub failed : s.failed_at ≡ p.failed_at
  pub class_kept : s.failure_class ≡ p.failure_class
  pub attempts : s.attempts ≡ p.attempt - 1
  pub consecutive : s.consecutive_retries ≡ p.consecutive_retry - 1
  pub most_attempts : s.max_attempts ≡ p.max_attempts
  pub most_consecutive : s.max_consecutive ≡ p.max_consecutive

abbrev pub StopsWith : String → Time → PendingRetry → Option StoppedRetry → Type 0
StopsWith reason now p none = ⊥
StopsWith reason now p (some s) = StopsAs reason now p s

-- A dispatch that fails is given up exactly if it has failed as often as the limit allows, or for a reason
-- that needs the user. Then nothing waits or is awaited any more, the reason is reported, and the stopped
-- entry is that of the very failure, with the attempt that was under way not counted.
pub reschedule_awaiting-gives_up :
    (config : Config) (now later : Time) (reason : String) (p : PendingRetry) (t : ThreadState)
    → let reply = reschedule_awaiting config (dispatch_thread config now p t) later reason true in
      let after = stored_or_same t reply.stored in
      (after.awaiting ≡ none)
      × ((after.pending ≡ none × reply.error ≡ some reason × StopsWith reason later p after.stopped)
          ↔ ((controller_failure_needs_action reason ≡ true)
              ⊎ (config.controller_failure_limit ≤ p.dispatch_failures + 1)))
unfolding reschedule_awaiting dispatch_thread stop_awaiting_for_controller completed_retry_count
reschedule_awaiting-gives_up config now later reason p t = ground arith

-- A retry that the user restarts has the limits that its class is configured with and none of the
-- attempts used up, and the next tick may send it at once, unless a job of the thread still runs: a
-- goal's hold and the time limit of the old outage no longer stand in its way.
pub select_due-restart_retry :
    (config : Config) (now : Time) (t : ThreadState) (s : StoppedRetry)
    → t.awaiting ≡ none
    → t.stopped ≡ some s
    → (select_due_reply now (apply_control_command config command_restart_retry now t)
        ≡ candidate (restarted_retry config now s))
      × ((restarted_retry config now s).attempt ≡ 1)
unfolding apply_control_command restart_stopped select_due hold_forbids_dispatch
select_due-restart_retry config now t s quiet stop = ground (arith, quiet, stop)

-- A retry that the user asks for at once is sent by the next tick, if no goal holds it, nothing of the
-- thread is under way and its outage is not over the time limit.
pub select_due-retry_now :
    (config : Config) (now : Time) (t : ThreadState) (p : PendingRetry)
    → t.pending ≡ some p
    → t.awaiting ≡ none
    → t.goal_held ≡ false
    → now - t.recovery_started_at ≤ max_automatic_recovery_duration
    → select_due_reply now (apply_control_command config command_retry_now now t)
      ≡ candidate (record p { due_at = now })
unfolding apply_control_command select_due hold_forbids_dispatch
select_due-retry_now config now t p waiting quiet free early = ground (arith, waiting, quiet, free)

-- The goal lets the retry go: it is not held, the user has restarted the goal after its limit, or the goal
-- was paused or blocked already when the turn began that failed.
abbrev pub GoalLets : ThreadState → PendingRetry → Type 0
GoalLets t p =
    (t.goal_held ≡ false)
    ⊎ ((p.goal_limit_restart ≡ true)
        ⊎ ((p.origin_turn_started_at ≢ 0)
            × ((t.goal_status ≡ "paused") ⊎ (t.goal_status ≡ "blocked"))
            × (t.goal_updated_at ≤ p.origin_turn_started_at)))

-- The retry may be sent now.
pub record IsDue (now : Time) (t : ThreadState) (p : PendingRetry) : Type 0 where
  pub waits : t.pending ≡ some p
  pub due : p.due_at ≤ now
  pub alone : t.awaiting ≡ none
  pub goal : GoalLets t p
  pub early :
      (t.recovery_started_at ≡ 0) ⊎ (now - t.recovery_started_at ≤ max_automatic_recovery_duration)

hold_forbids_dispatch-GoalLets :
    (t : ThreadState) (p : PendingRetry)
    → t.pending ≡ some p
    → t.awaiting ≡ none
    → hold_forbids_dispatch t ≡ false
    → GoalLets t p
unfolding hold_forbids_dispatch goal_limit_restart_pending held_conversation_still_allowed
    held_conversation_allowed
hold_forbids_dispatch-GoalLets t p waits alone free =
    ground
      (arith, waits, alone, free, eq_iff t.goal_status "paused", eq_iff t.goal_status "blocked")

-- A candidate may be sent, and no job of its thread runs.
pub select_due-IsDue :
    (now : Time) (active : Bool) (t : ThreadState) (p : PendingRetry)
    → select_due now active t ≡ candidate p
    → IsDue now t p × (active ≡ false)
unfolding select_due
select_due-IsDue now active t p e =
    let waits : t.pending ≡ some p = ground (arith, e) in
    let alone : t.awaiting ≡ none = ground (arith, e) in
    let free : hold_forbids_dispatch t ≡ false = ground (arith, e) in
    let goal = hold_forbids_dispatch-GoalLets t p waits alone free in
    ground (arith, e, waits, alone, goal)
