-- ===== src/Tests/Recoveries.antt =====
-- The theorems on the way of a retry out and back, each at one of the threads of the data.
use Prim.Native.Nat.{min}
use codex_auto_retry.Prelude.{
  ◌↔◌, ◌+◌, ◌*◌, ◌≤◌, ◌≡◌, ◌⊎◌, refl, arith, true, false, some, none, is_some, second,
}
use codex_auto_retry.Model.{ThreadState, PendingRetry}
use codex_auto_retry.Config.{default_config}
use codex_auto_retry.Policy.{
  retry_limits, retry_delay, controller_failure_needs_action, one_of, retry_limits_for_decision,
}
use codex_auto_retry.Policy.Delay.{retry_delay-closed_form}
use codex_auto_retry.Thread.{stopped_pending}
use codex_auto_retry.Thread.Awaiting.{
  reschedule_awaiting, transport_blocked, stop_pending_for_controller,
}
use codex_auto_retry.Thread.Lifecycle.{Candidate, retry_thread_is_active}
use codex_auto_retry.Thread.Queue.{
  dispatch_thread, can_reopen_stopped, reopen_stopped, was_unsent, stop_due, overtaken,
}
use codex_auto_retry.Thread.Budget.{pending_of}
use codex_auto_retry.Thread.Claims.{stored_or_same}
use codex_auto_retry.Thread.Redispatch.{
  StopsWith, reschedule_awaiting-dispatch_thread, reschedule_awaiting-gives_up,
}
use codex_auto_retry.Thread.Reopen.{
  probed, MayReturn, GoesOn, reopen_stopped-budget, reopen_stopped-stop_due, apply_probe-confirms,
}
use codex_auto_retry.Tests.Data.{
  now, later, pending, awaiting, stopped, waiting_thread, awaiting_thread, stopped_thread,
  default_config-IsValid,
}

reschedule_awaiting-dispatch_thread_example :
    pending_of
      (reschedule_awaiting default_config
        (dispatch_thread default_config now pending waiting_thread)
        later
        "thread_busy"
        true).stored
    ≡ some (record pending { dispatch_failures = 1; due_at = later + retry_delay 1 default_config })
unfolding controller_failure_needs_action one_of default_config
reschedule_awaiting-dispatch_thread_example =
    reschedule_awaiting-dispatch_thread default_config now later "thread_busy" pending
      waiting_thread refl (omega arith)

reschedule_awaiting-gives_up_example :
    let reply =
      reschedule_awaiting default_config
        (dispatch_thread default_config now pending waiting_thread)
        later
        "codex_not_running"
        true in
    let after = stored_or_same waiting_thread reply.stored in
    (after.awaiting ≡ none)
    × ((after.pending ≡ none
          × reply.error ≡ some "codex_not_running"
          × StopsWith "codex_not_running" later pending after.stopped)
        ↔ ((controller_failure_needs_action "codex_not_running" ≡ true)
            ⊎ (default_config.controller_failure_limit ≤ pending.dispatch_failures + 1)))
reschedule_awaiting-gives_up_example =
    reschedule_awaiting-gives_up default_config now later "codex_not_running" pending waiting_thread

abbrev reopened : PendingRetry
reopened = record pending { due_at = now }

stopped_thread-waits :
    pending_of (reopen_stopped default_config now false stopped_thread).stored ≡ some reopened
unfolding reopen_stopped can_reopen_stopped was_unsent overtaken retry_limits
    retry_limits_for_decision default_config
stopped_thread-waits = refl

reopen_stopped-budget_example :
    (false ≡ false)
    × MayReturn stopped_thread stopped now
    × GoesOn default_config now stopped reopened
reopen_stopped-budget_example =
    reopen_stopped-budget default_config now false stopped_thread stopped reopened refl
      stopped_thread-waits

abbrev without_channel : ThreadState
without_channel =
    stored_or_same waiting_thread (stop_due now "shared_app_server_disabled" waiting_thread).stored

without_channel-reopens :
    can_reopen_stopped without_channel
      (stopped_pending pending now "shared_app_server_disabled"
        (some (transport_blocked waiting_thread pending "shared_app_server_disabled")))
      later
    ≡ true
unfolding stop_due stop_pending_for_controller can_reopen_stopped was_unsent overtaken
without_channel-reopens = refl

pending-IsWithinLimits :
    (pending.attempt ≤ (retry_limits pending.failure_class default_config).0)
    × (pending.consecutive_retry ≤ (retry_limits pending.failure_class default_config).1)
unfolding retry_limits retry_limits_for_decision default_config
pending-IsWithinLimits = (omega arith, omega arith)

reopen_stopped-stop_due_example :
    pending_of (reopen_stopped default_config later false without_channel).stored
    ≡ some (record pending {
      due_at = later;
      max_attempts = min (retry_limits pending.failure_class default_config).0 pending.max_attempts;
      max_consecutive =
          min (retry_limits pending.failure_class default_config).1 pending.max_consecutive;
      dispatch_failures = 0;
      parent_notified = false;
      goal_limit_restart = false;
    })
reopen_stopped-stop_due_example =
    reopen_stopped-stop_due default_config now later waiting_thread pending refl (omega arith)
      without_channel-reopens (omega arith, omega arith) (omega arith, omega arith)
      pending-IsWithinLimits refl

abbrev probe : Candidate
probe = record { event_key = "key"; turn_id = "turn-2"; codex_home = "home" }

apply_probe-confirms_example :
    let once = probed default_config now probe "idle" awaiting_thread in
    let twice = probed default_config later probe "active" once in
    let thrice = probed default_config later probe "idle" twice in
    (is_some once.awaiting ≡ true)
    × (is_some twice.awaiting ≡ true)
    × (is_some thrice.awaiting ≡ true)
unfolding retry_thread_is_active one_of
apply_probe-confirms_example =
    apply_probe-confirms default_config now later later probe "idle" "active" "idle" awaiting_thread
      awaiting refl refl refl refl refl

retry_delay-closed_form_example : retry_delay 3 default_config ≡ 20 * second
unfolding default_config
retry_delay-closed_form_example = retry_delay-closed_form 3 default_config default_config-IsValid
