-- ===== src/Thread/WellFormed/Turns.antt =====
-- Input, progress, an abort, a completion and a notice keep a thread's retry state well-formed.
use codex_auto_retry.Prelude.{
  ◌≡◌, String, false, some, none, arith, Time, Option, Option-cases, Bool-cases, inl, inr,
}
use codex_auto_retry.Text.{Text}
use codex_auto_retry.Model.{ThreadState, AwaitingRetry, RelevantEvent}
use codex_auto_retry.Config.{Config}
use codex_auto_retry.Goal.{automatic_goal_limit_stopped, is_goal_empty_response_stop_reason}
use codex_auto_retry.Classifier.CcSwitch.{Json}
use codex_auto_retry.Thread.{ScannedEvent}
use codex_auto_retry.Thread.Schedule.{schedule_failure}
use codex_auto_retry.Thread.Turns.{
  handle_task_user_input, handle_task_progress, handle_turn_aborted, complete_awaiting,
  complete_pending, handle_task_complete, handle_subagent_recovery_notice, next_failure,
  first_failure, or_last_started,
}
use codex_auto_retry.Thread.WellFormed.{
  IsWellFormed, Keeps, reset_retry_state-IsWellFormed, cancel_retry-Keeps,
}
use codex_auto_retry.Thread.WellFormed.Scheduled.{schedule_failure-Keeps}

-- The user's input keeps the thread well-formed.
pub handle_task_user_input-Keeps :
    (event : RelevantEvent) (t : ThreadState)
    → IsWellFormed t
    → Keeps (handle_task_user_input event t)
unfolding handle_task_user_input
handle_task_user_input-Keeps event t v = ground (arith, cancel_retry-Keeps t)

-- So does progress.
pub handle_task_progress-Keeps :
    (event : RelevantEvent) (t : ThreadState)
    → IsWellFormed t
    → Keeps (handle_task_progress event t)
unfolding handle_task_progress
handle_task_progress-Keeps event t v = ground arith

note_abort : RelevantEvent → ThreadState → ThreadState
note_abort event t = record t {
  last_aborted_turn_id = or_last_started event.turn_id t;
  last_aborted_at = event.timestamp;
}

note_abort-IsWellFormed :
    (event : RelevantEvent) (t : ThreadState) → IsWellFormed t → IsWellFormed (note_abort event t)
unfolding note_abort
note_abort-IsWellFormed event t v = ground arith

-- So does an abort.
pub handle_turn_aborted-Keeps :
    (event : RelevantEvent) (t : ThreadState) → IsWellFormed t → Keeps (handle_turn_aborted event t)
unfolding handle_turn_aborted note_abort
handle_turn_aborted-Keeps event t v =
    ground (
      arith,
      note_abort-IsWellFormed event t v,
      reset_retry_state-IsWellFormed (note_abort event t),
    )

-- So does the parent's notice.
pub handle_subagent_recovery_notice-Keeps :
    (recovery_event_id : String → String) (event : RelevantEvent) (t : ThreadState)
    → IsWellFormed t
    → Keeps (handle_subagent_recovery_notice recovery_event_id event t)
unfolding handle_subagent_recovery_notice
handle_subagent_recovery_notice-Keeps recovery_event_id event t v = ground arith

idle-goal_stop :
    (t : ThreadState) → IsWellFormed t → automatic_goal_limit_stopped t ≡ false → t.goal_stop ≡ none
unfolding automatic_goal_limit_stopped is_goal_empty_response_stop_reason
idle-goal_stop t v a = ground arith

module _ (decode : Text → Option Json) (config : Config) (item : ScannedEvent) (key : String)
    (now : Time) (t : ThreadState) (v : IsWellFormed t)
    (free : automatic_goal_limit_stopped t ≡ false) where
  complete_awaiting-Keeps :
      (a : AwaitingRetry)
      → t.awaiting ≡ some a
      → Keeps (complete_awaiting decode config item key now t a)
  unfolding complete_awaiting
  complete_awaiting-Keeps a e = ground (
    arith,
    reset_retry_state-IsWellFormed t,
    schedule_failure-Keeps decode config
        (record t { current_turn_progress = false; awaiting = none })
        (next_failure item key now t.current_turn_progress a) (ground arith)
        (idle-goal_stop t v free) (ground arith),
  )

  complete_idle-Keeps :
      t.awaiting ≡ none
      → t.pending ≡ none
      → Keeps (
          schedule_failure decode config
            (record t { current_turn_progress = false })
            (first_failure item key now t))
  complete_idle-Keeps e f =
      schedule_failure-Keeps decode config (record t { current_turn_progress = false })
        (first_failure item key now t) (ground arith) (idle-goal_stop t v free)
        (omega arith, omega arith)

-- So does the end of a turn, with or without an error.
pub handle_task_complete-Keeps :
    (decode : Text → Option Json) (config : Config) (item : ScannedEvent) (key : String)
    (now : Time) (t : ThreadState)
    → IsWellFormed t
    → Keeps (handle_task_complete decode config item key now t)
unfolding handle_task_complete complete_pending
handle_task_complete-Keeps decode config item key now t v =
    let reset = reset_retry_state-IsWellFormed t in
    elim (Bool-cases (automatic_goal_limit_stopped t)) [
      | inl stopped ↦ ground arith
      | inr free ↦ elim (Option-cases t.awaiting) [
        | inr (a, e) ↦
            ground (arith, reset, complete_awaiting-Keeps decode config item key now t v free a e)
        | inl e ↦ elim (Option-cases t.pending) [
          | inr (p, f) ↦ ground (arith, reset)
          | inl f ↦
              ground (arith, reset, complete_idle-Keeps decode config item key now t v free e f)
        ]
      ]
    ]
