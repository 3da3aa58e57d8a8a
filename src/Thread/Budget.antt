-- ===== src/Thread/Budget.antt =====
-- The retry budget of scripts/source/retry_state.go: what a failed turn may still schedule.
use codex_auto_retry.Prelude.{
  ◌+◌, ◌-◌, ◌*◌, ◌≤◌, ◌≡◌, ◌∙◌, ◌&&◌, subst, arith, String, true, false, Option, none, some, Time,
  second, Option-cases, inl, inr, if◌then◌else◌, is_some, ◌↔◌,
}
use codex_auto_retry.Text.{Text}
use codex_auto_retry.Model.{ThreadState, PendingRetry, RetryDecision}
use codex_auto_retry.Config.{Config}
use codex_auto_retry.Config.Bounds.{IsValid}
use codex_auto_retry.Policy.{
  max_automatic_recovery_duration, completed_retry_count, retry_limits_for_decision,
}
use codex_auto_retry.Policy.Bounds.{retry_limits_for_decision-le}
use codex_auto_retry.Policy.Delay.{retry_delay_bounds}
use codex_auto_retry.Classifier.CcSwitch.{Json}
use codex_auto_retry.Classifier.{classify_completion_failure}
use codex_auto_retry.Thread.{ScannedEvent, reset_retry_state}
use codex_auto_retry.Thread.Schedule.{
  Failure, start_recovery_clock, exhausted_thread, scheduled_thread, schedule_decision,
  pass_goal_hold, schedule_failure,
}
use codex_auto_retry.Thread.WellFormed.{stopped_attempts, awaiting_attempt, awaiting_consecutive}
use codex_auto_retry.Thread.Turns.{
  complete_awaiting, first_failure, next_failure, handle_task_complete,
}

-- The retry is within the configured limits, and due no earlier than its delay allows.
pub record IsWithinBudget (config : Config) (now : Time) (p : PendingRetry) : Type 0 where
  pub recovery : p.attempt ≤ config.max_recovery_attempts
  pub consecutive : p.consecutive_retry ≤ config.max_consecutive_retries
  pub own_recovery : p.attempt ≤ p.max_attempts
  pub own_consecutive : p.consecutive_retry ≤ p.max_consecutive
  pub waits : now + config.initial_delay_seconds * second ≤ p.due_at

module _ (config : Config) (t : ThreadState) (f : Failure) where
  schedule_decision-IsWithinBudget :
      (d : RetryDecision) (p : PendingRetry)
      → IsValid config
      → (schedule_decision config t f d).pending ≡ some p
      → IsWithinBudget config f.now p
        × (p.attempt ≡ f.recovery_attempt)
        × (p.consecutive_retry ≡ f.consecutive_retry)
        × (f.now - t.recovery_started_at ≤ max_automatic_recovery_duration)
  unfolding schedule_decision reset_retry_state exhausted_thread scheduled_thread
  schedule_decision-IsWithinBudget d p v e = ground (
    arith,
    retry_limits_for_decision-le d config,
    retry_delay_bounds f.consecutive_retry config v,
  )

  -- A decision to retry schedules the retry exactly while both counters are within their limits and the
  -- outage has lasted at most 30 minutes, and otherwise stops the recovery, counting the retries that
  -- were made; a refusal leaves neither.
  pub schedule_decision-exact :
      (d : RetryDecision)
      → let (recovery, consecutive) = retry_limits_for_decision d config in
        let t' = schedule_decision config t f d in
        (is_some t'.pending ≡ true
          ↔ (d.retry ≡ true)
            × (f.recovery_attempt ≤ recovery)
            × (f.consecutive_retry ≤ consecutive)
            × (f.now - t.recovery_started_at ≤ max_automatic_recovery_duration))
        × (is_some t'.stopped ≡ true ↔ (d.retry ≡ true) × (t'.pending ≡ none))
        × (stopped_attempts t'.stopped ≡ (if is_some t'.stopped then f.recovery_attempt - 1 else 0))
  unfolding schedule_decision reset_retry_state exhausted_thread scheduled_thread
      completed_retry_count
  schedule_decision-exact d = ground arith

pass_goal_hold-quiet :
    (t u : ThreadState) (f : Failure)
    → pass_goal_hold t f ≡ some u
    → u.recovery_started_at ≡ t.recovery_started_at
unfolding pass_goal_hold
pass_goal_hold-quiet t u f e = ground arith

-- What a failure's retry is: within the budget, with the counters that the failure was given.
abbrev pub Fits : Config → Failure → Option PendingRetry → Type 0
Fits config f none = Unit
Fits config f (some p) =
    IsWithinBudget config f.now p
    × (p.attempt ≡ f.recovery_attempt)
    × (p.consecutive_retry ≡ f.consecutive_retry)

abbrev pub pending_of : Option ThreadState → Option PendingRetry
pending_of none = none
pending_of (some t) = t.pending

schedule_failure-Fits :
    (decode : Text → Option Json) (config : Config) (t : ThreadState) (f : Failure)
    → IsValid config
    → Fits config f (pending_of (schedule_failure decode config t f).stored)
unfolding schedule_failure
schedule_failure-Fits decode config t f v =
    let started = start_recovery_clock t f.now in
    elim (Option-cases (pass_goal_hold started f)) [
      | inl e ↦ rw (e, schedule_failure) tt
      | inr (u, e) ↦
          let d = classify_completion_failure decode f.item.event config in
          let t' = schedule_decision config u f d in
          elim (Option-cases t'.pending) [
            | inl none' ↦ rw (e, schedule_failure, none') tt
            | inr (p, some') ↦
                let h = schedule_decision-IsWithinBudget config u f d p v some' in
                rw (e, schedule_failure, some') (h.0, h.1, h.2)
          ]
    ]

-- The failure that the completion of a turn is, with the counters of the thread.
abbrev pub failure_of : ScannedEvent → String → Time → ThreadState → Failure
failure_of item key now t = elim t.awaiting [
  | none ↦ first_failure item key now t
  | some awaiting ↦ next_failure item key now t.current_turn_progress awaiting
]

handle_task_complete-Fits :
    (decode : Text → Option Json) (config : Config) (item : ScannedEvent) (key : String)
    (now : Time) (t : ThreadState)
    → IsValid config
    → t.pending ≡ none
    → Fits config
        (failure_of item key now t)
        (pending_of (handle_task_complete decode config item key now t).stored)
unfolding handle_task_complete complete_awaiting reset_retry_state
handle_task_complete-Fits decode config item key now t v quiet = elim (Option-cases t.awaiting) [
  | inl e ↦ ground (
    arith,
    quiet,
    e,
    schedule_failure-Fits decode config (record t { current_turn_progress = false })
        (first_failure item key now t) v,
  )
  | inr (a, e) ↦ ground (
    arith,
    quiet,
    e,
    schedule_failure-Fits decode config
        (record t { current_turn_progress = false; awaiting = none })
        (next_failure item key now t.current_turn_progress a) v,
  )
]

failure_of-counted :
    (item : ScannedEvent) (key : String) (now : Time) (t : ThreadState)
    → let f = failure_of item key now t in
      (f.now ≡ now)
      × (f.recovery_attempt ≡ awaiting_attempt t.awaiting + 1)
      × (f.consecutive_retry ≡ (
          if t.current_turn_progress && is_some t.awaiting
          then 1
          else awaiting_consecutive t.awaiting + 1))
failure_of-counted item key now t = ground arith

-- When a turn completes on a thread that has no waiting retry, a retry that then waits is within the
-- configured budget. It is retry 1 of the outage and of the streak if no retry was awaited, and else
-- the retry after the awaited one, whose streak starts again if the turn made progress.
pub handle_task_complete-budget :
    (decode : Text → Option Json) (config : Config) (item : ScannedEvent) (key : String)
    (now : Time) (t : ThreadState) (p : PendingRetry)
    → IsValid config
    → t.pending ≡ none
    → pending_of (handle_task_complete decode config item key now t).stored ≡ some p
    → IsWithinBudget config now p
      × (p.attempt ≡ awaiting_attempt t.awaiting + 1)
      × (p.consecutive_retry ≡ (
          if t.current_turn_progress && is_some t.awaiting
          then 1
          else awaiting_consecutive t.awaiting + 1))
handle_task_complete-budget decode config item key now t p v quiet e =
    let f = failure_of item key now t in
    let fits : Fits config f (some p) =
      subst (Fits config f) e (handle_task_complete-Fits decode config item key now t v quiet) in
    let (time, attempt, consecutive) = failure_of-counted item key now t in
    (subst (λ at. IsWithinBudget config at p) time fits.0, fits.1 ∙ attempt, fits.2 ∙ consecutive)
