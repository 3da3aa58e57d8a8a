-- ===== src/Thread/WellFormed/Queue.antt =====
-- What a tick does with a thread outside the event handlers keeps its retry state well-formed.
use codex_auto_retry.Prelude.{ℕ, ◌+◌, ◌≡◌, String, Bool, some, Option-cases, inl, inr, arith, Time}
use codex_auto_retry.Model.{ThreadState, AwaitingRetry, PendingRetry}
use codex_auto_retry.Config.{Config}
use codex_auto_retry.Thread.Lifecycle.{
  Candidate, Probe, status, failure, probe_failed, probe_answered, apply_probe,
}
use codex_auto_retry.Thread.Queue.{
  relimit, relimit_pending, relimit_awaiting, drop_held, select_due, Selection, replies, candidate,
  dispatch_thread, stop_due, reopen_stopped, can_reopen_stopped,
}
use codex_auto_retry.Thread.WellFormed.{IsWellFormed, Keeps}
use codex_auto_retry.Thread.WellFormed.Commands.{
  stop_awaiting_for_controller-Keeps, stop_pending_for_controller-Keeps, stop_pending_retry-Keeps,
  advance_inactive_awaiting-Keeps,
}

module _ (config : Config) (now : Time) (t : ThreadState) (v : IsWellFormed t) where
  probe_failed-Keeps :
      (a : AwaitingRetry) (reason : String)
      → t.awaiting ≡ some a
      → Keeps (probe_failed config now t a reason)
  unfolding probe_failed
  probe_failed-Keeps a reason e = ground (arith, stop_awaiting_for_controller-Keeps t now reason v)

  checked-IsWellFormed :
      (a : AwaitingRetry) (failures checks : ℕ)
      → t.awaiting ≡ some a
      → IsWellFormed (record t {
        awaiting = some (record a { dispatch_failures = failures; lifecycle_checks = checks });
      })
  checked-IsWellFormed a failures checks e = ground arith

  probe_answered-Keeps :
      (a : AwaitingRetry) (answer : String)
      → t.awaiting ≡ some a
      → Keeps (probe_answered config now t a answer)
  unfolding probe_answered
  probe_answered-Keeps a answer e = ground (
    arith,
    checked-IsWellFormed a 0 0 e,
    checked-IsWellFormed a 0 (a.lifecycle_checks + 1) e,
    advance_inactive_awaiting-Keeps config now _
        (checked-IsWellFormed a 0 (a.lifecycle_checks + 1) e),
  )

  -- The answer of a lifecycle probe keeps the thread well-formed.
  pub apply_probe-Keeps : (c : Candidate) (p : Probe) → Keeps (apply_probe config now c p t)
  unfolding apply_probe
  apply_probe-Keeps c (status answer) = elim (Option-cases t.awaiting) [
    | inl e ↦ ground arith
    | inr (a, e) ↦ ground (arith, probe_answered-Keeps a answer e)
  ]
  apply_probe-Keeps c (failure reason) = elim (Option-cases t.awaiting) [
    | inl e ↦ ground arith
    | inr (a, e) ↦ ground (arith, probe_failed-Keeps a reason e)
  ]

  relimit-pending-IsWellFormed :
      (p : PendingRetry)
      → t.pending ≡ some p
      → IsWellFormed (record t {
        awaiting = relimit_awaiting config t.awaiting;
        pending = some (relimit_pending config p);
      })
  relimit-pending-IsWellFormed p e = ground arith

  -- New limits keep the thread well-formed.
  pub relimit-Keeps : Keeps (relimit config now t)
  unfolding relimit
  relimit-Keeps = elim (Option-cases t.pending) [
    | inl e ↦ ground arith
    | inr (p, e) ↦
        let w = relimit-pending-IsWellFormed p e in
        ground (arith, w, stop_pending_retry-Keeps config _ now w)
  ]

  pub dispatch_thread-IsWellFormed :
      (p : PendingRetry) → t.pending ≡ some p → IsWellFormed (dispatch_thread config now p t)
  unfolding dispatch_thread
  dispatch_thread-IsWellFormed p e = ground arith

  pub stop_due-Keeps : (reason : String) → Keeps (stop_due now reason t)
  unfolding stop_due
  stop_due-Keeps reason = ground (arith, stop_pending_for_controller-Keeps t now reason v)

  -- Reopening a stopped retry keeps the thread well-formed.
  pub reopen_stopped-Keeps : (is_active : Bool) → Keeps (reopen_stopped config now is_active t)
  unfolding reopen_stopped can_reopen_stopped
  reopen_stopped-Keeps is_active = ground arith

abbrev pub SelectsWellFormed : ThreadState → Selection → Type 0
SelectsWellFormed t (replies r) = Keeps r
SelectsWellFormed t (candidate p) = t.pending ≡ some p

drop_held-Keeps : (t : ThreadState) → IsWellFormed t → Keeps (drop_held t)
unfolding drop_held
drop_held-Keeps t v = ground arith

-- A candidate for dispatch is the thread's own pending retry; else the reply is well-formed.
pub select_due-SelectsWellFormed :
    (now : Time) (is_active : Bool) (t : ThreadState)
    → IsWellFormed t
    → SelectsWellFormed t (select_due now is_active t)
unfolding select_due
select_due-SelectsWellFormed now is_active t v = elim (Option-cases t.pending) [
  | inl e ↦ ground (arith, drop_held-Keeps t v)
  | inr (p, e) ↦
      ground (
        arith,
        drop_held-Keeps t v,
        stop_pending_for_controller-Keeps t now "recovery_time_limit" v,
      )
]
