-- ===== src/Thread/WellFormed/Commands.antt =====
-- The user's commands, a restart of the watchdog and a dispatched retry that nothing completes keep a
-- thread's retry state well-formed.
use text.Mathlib.TextPositions.{eq_refl}
use codex_auto_retry.Prelude.{
  ◌+◌, ◌≡◌, String, Bool, true, some, Option-cases, inl, inr, arith, Time,
}
use codex_auto_retry.Model.{ThreadState, AwaitingRetry}
use codex_auto_retry.Config.{Config}
use codex_auto_retry.Policy.{completed_retry_count}
use codex_auto_retry.Thread.{stop_pending_retry}
use codex_auto_retry.Thread.Control.{
  ControlAction, command_retry_now, command_cancel_retry, command_restart_retry, restart_stopped,
  apply_control_command, reconcile_startup_state,
}
use codex_auto_retry.Thread.Awaiting.{
  stop_awaiting_for_controller, stop_pending_for_controller, reschedule_awaiting,
  expire_unacknowledged, exhaust_awaiting, requeue_next, advance_inactive_awaiting,
  next_consecutive,
}
use codex_auto_retry.Thread.WellFormed.{IsWellFormed, Keeps}

-- A command of the user keeps the thread well-formed.
pub apply_control_command-Keeps :
    (config : Config) (c : ControlAction) (now : Time) (t : ThreadState)
    → IsWellFormed t
    → Keeps (apply_control_command config c now t)
unfolding apply_control_command restart_stopped
apply_control_command-Keeps config command_retry_now now t v = ground arith
apply_control_command-Keeps config command_cancel_retry now t v = ground arith
apply_control_command-Keeps config command_restart_retry now t v = ground arith

-- So does a restart of the watchdog.
pub reconcile_startup_state-Keeps :
    (now : Time) (t : ThreadState) → IsWellFormed t → Keeps (reconcile_startup_state now t)
unfolding reconcile_startup_state
reconcile_startup_state-Keeps now t v = ground arith

-- A stop because the controller failed keeps the thread well-formed, for a dispatched retry.
pub stop_awaiting_for_controller-Keeps :
    (t : ThreadState) (now : Time) (reason : String)
    → IsWellFormed t
    → Keeps (stop_awaiting_for_controller t now reason)
unfolding stop_awaiting_for_controller completed_retry_count
stop_awaiting_for_controller-Keeps t now reason v = ground arith

-- And for a waiting one.
pub stop_pending_for_controller-Keeps :
    (t : ThreadState) (now : Time) (reason : String)
    → IsWellFormed t
    → Keeps (stop_pending_for_controller t now reason)
unfolding stop_pending_for_controller completed_retry_count
stop_pending_for_controller-Keeps t now reason v = ground arith

-- So does a stop at a limit.
pub stop_pending_retry-Keeps :
    (config : Config) (t : ThreadState) (now : Time)
    → IsWellFormed t
    → Keeps (stop_pending_retry config t now)
unfolding stop_pending_retry completed_retry_count
stop_pending_retry-Keeps config t now v = elim (Option-cases t.pending) [
  | inl e ↦ ground arith
  | inr (p, e) ↦ ground (arith, eq_refl p.event_key)
]

module _ (config : Config) (now : Time) (t : ThreadState) (v : IsWellFormed t) where
  -- So does putting a dispatched retry back into the queue.
  pub reschedule_awaiting-Keeps :
      (reason : String) (count_failure : Bool)
      → Keeps (reschedule_awaiting config t now reason count_failure)
  unfolding reschedule_awaiting
  reschedule_awaiting-Keeps reason count_failure =
      ground (arith, stop_awaiting_for_controller-Keeps t now reason v)

  pub expire_unacknowledged-Keeps :
      (is_active : Bool) → Keeps (expire_unacknowledged config now is_active t)
  unfolding expire_unacknowledged
  expire_unacknowledged-Keeps is_active =
      ground (arith, reschedule_awaiting-Keeps "start_not_acknowledged" true)

  exhaust_awaiting-IsWellFormed :
      (a : AwaitingRetry)
      → t.awaiting ≡ some a
      → IsWellFormed (
          exhaust_awaiting config t a now
            (a.attempt + 1)
            (next_consecutive t.current_turn_progress a))
  unfolding exhaust_awaiting completed_retry_count
  exhaust_awaiting-IsWellFormed a e = ground (arith, eq_refl a.event_key)

  requeue_next-IsWellFormed :
      (a : AwaitingRetry)
      → t.awaiting ≡ some a
      → IsWellFormed
          (requeue_next config t a now (a.attempt + 1) (next_consecutive t.current_turn_progress a))
  unfolding requeue_next
  requeue_next-IsWellFormed a e = ground arith

  pub advance_inactive_awaiting-Keeps : Keeps (advance_inactive_awaiting config now t)
  unfolding advance_inactive_awaiting
  advance_inactive_awaiting-Keeps = elim (Option-cases t.awaiting) [
    | inl e ↦ ground arith
    | inr (a, e) ↦ ground (arith, exhaust_awaiting-IsWellFormed a e, requeue_next-IsWellFormed a e)
  ]
