-- ===== src/Thread/WellFormed/Scheduled.antt =====
-- A failed turn, however it is handled, leaves a well-formed thread.
use text.Mathlib.TextPositions.{eq_refl}
use codex_auto_retry.Prelude.{
  ℕ, ◌≤◌, ◌≡◌, some, none, arith, Bool, Time, Option-cases, inl, inr, Option, ltb, ◌-◌,
}
use codex_auto_retry.Text.{Text}
use codex_auto_retry.Model.{ThreadState, RetryDecision}
use codex_auto_retry.Config.{Config}
use codex_auto_retry.Policy.{
  max_automatic_recovery_duration, completed_retry_count, retry_limits_for_decision,
}
use codex_auto_retry.Classifier.CcSwitch.{Json}
use codex_auto_retry.Classifier.{classify_completion_failure}
use codex_auto_retry.Thread.Schedule.{
  Failure, start_recovery_clock, held_thread, exhausted_thread, scheduled_thread, schedule_decision,
  pass_goal_hold, schedule_failure,
}
use codex_auto_retry.Thread.WellFormed.{IsWellFormed, Keeps, reset_retry_state-IsWellFormed}

-- The counters that `handleTaskCompleteLocked` passes.
abbrev pub CountsFromOne : Failure → Type 0
CountsFromOne f = (1 ≤ f.consecutive_retry) × (f.consecutive_retry ≤ f.recovery_attempt)

module _ (config : Config) (t : ThreadState) (f : Failure) where
  exhausted_thread-IsWellFormed :
      (d : RetryDecision) (recovery consecutive : ℕ) (late : Bool)
      → CountsFromOne f
      → t.goal_stop ≡ none
      → IsWellFormed (exhausted_thread config t f d recovery consecutive late)
  unfolding exhausted_thread completed_retry_count
  exhausted_thread-IsWellFormed d recovery consecutive late c g = ground (arith, eq_refl f.key)

  scheduled_thread-IsWellFormed :
      (d : RetryDecision) (recovery consecutive : ℕ)
      → CountsFromOne f
      → IsWellFormed (scheduled_thread config t f d recovery consecutive)
  unfolding scheduled_thread
  scheduled_thread-IsWellFormed d recovery consecutive c = ground arith

  schedule_decision-IsWellFormed :
      (d : RetryDecision)
      → CountsFromOne f
      → t.goal_stop ≡ none
      → IsWellFormed (schedule_decision config t f d)
  unfolding schedule_decision
  schedule_decision-IsWellFormed d c g =
      let (recovery, consecutive) = retry_limits_for_decision d config in
      ground (
        arith,
        reset_retry_state-IsWellFormed t,
        exhausted_thread-IsWellFormed d recovery consecutive
            (ltb max_automatic_recovery_duration (f.now - t.recovery_started_at)) c g,
        scheduled_thread-IsWellFormed d recovery consecutive c,
      )

held_thread-IsWellFormed :
    (t : ThreadState) (f : Failure) → IsWellFormed t → IsWellFormed (held_thread t f)
held_thread-IsWellFormed t f v = ground arith

start_recovery_clock-keeps :
    (t : ThreadState) (now : Time)
    → IsWellFormed t
    → t.goal_stop ≡ none
    → IsWellFormed (start_recovery_clock t now) × ((start_recovery_clock t now).goal_stop ≡ none)
unfolding start_recovery_clock
start_recovery_clock-keeps t now v g = ground arith

pass_goal_hold-goal_stop :
    (t u : ThreadState) (f : Failure)
    → t.goal_stop ≡ none
    → pass_goal_hold t f ≡ some u
    → u.goal_stop ≡ none
unfolding pass_goal_hold
pass_goal_hold-goal_stop t u f g e = ground arith

-- What follows a failed turn is a well-formed thread: the next retry, a stop, a reset or a hold.
pub schedule_failure-Keeps :
    (decode : Text → Option Json) (config : Config) (t : ThreadState) (f : Failure)
    → IsWellFormed t
    → t.goal_stop ≡ none
    → CountsFromOne f
    → Keeps (schedule_failure decode config t f)
unfolding schedule_failure
schedule_failure-Keeps decode config t f v g c =
    let started = start_recovery_clock t f.now in
    let (w, h) = start_recovery_clock-keeps t f.now v g in
    elim (Option-cases (pass_goal_hold started f)) [
      | inl e ↦ rw (e, schedule_failure) (held_thread-IsWellFormed started f w)
      | inr (u, e) ↦
          rw (e, schedule_failure)
            (schedule_decision-IsWellFormed config u f
              (classify_completion_failure decode f.item.event config) c
              (pass_goal_hold-goal_stop started u f h e))
    ]
