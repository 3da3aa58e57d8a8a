-- ===== src/Thread/WellFormed/Goals.antt =====
-- A goal update keeps a thread's retry state well-formed.
use codex_auto_retry.Prelude.{◌≡◌, String, Bool, true, arith, is_some, Option-cases, inl, inr}
use codex_auto_retry.Model.{ThreadState, RelevantEvent}
use codex_auto_retry.Goal.{automatic_goal_limit_stopped, goal_requires_hold}
use codex_auto_retry.Thread.GoalUpdate.{
  note_goal, activate_stopped_goal, settle_stopped_goal, apply_goal_hold, handle_goal_updated,
}
use codex_auto_retry.Thread.WellFormed.{IsWellFormed, Keeps, reset_retry_state-IsWellFormed}

note_goal-IsWellFormed :
    (t : ThreadState) (event : RelevantEvent) → IsWellFormed t → IsWellFormed (note_goal t event)
note_goal-IsWellFormed t event v = ground arith

activate_stopped_goal-Keeps :
    (previous : String) (t : ThreadState)
    → IsWellFormed t
    → is_some t.stopped ≡ true
    → Keeps (activate_stopped_goal previous t)
unfolding activate_stopped_goal
activate_stopped_goal-Keeps previous t v s = ground arith

settle_stopped_goal-Keeps : (t : ThreadState) → IsWellFormed t → Keeps (settle_stopped_goal t)
unfolding settle_stopped_goal
settle_stopped_goal-Keeps t v = ground arith

hold : ThreadState → Bool → ThreadState
hold t held = record t { goal_held = held }

hold-IsWellFormed : (t : ThreadState) (held : Bool) → IsWellFormed t → IsWellFormed (hold t held)
unfolding hold
hold-IsWellFormed t held v = ground arith

apply_goal_hold-Keeps :
    (event : RelevantEvent) (t : ThreadState) → IsWellFormed t → Keeps (apply_goal_hold event t)
unfolding apply_goal_hold hold
apply_goal_hold-Keeps event t v =
    let held = goal_requires_hold event.goal_status event.goal_updated_at t.last_failure_at in
    ground (arith, hold-IsWellFormed t held v, reset_retry_state-IsWellFormed (hold t held))

-- An update of the goal keeps the thread well-formed.
pub handle_goal_updated-Keeps :
    (event : RelevantEvent) (t : ThreadState) → IsWellFormed t → Keeps (handle_goal_updated event t)
unfolding handle_goal_updated hold automatic_goal_limit_stopped
handle_goal_updated-Keeps event t v =
    let noted = note_goal t event in
    let w = note_goal-IsWellFormed t event v in
    elim (Option-cases t.stopped) [
      | inl e ↦ ground (arith, hold-IsWellFormed noted true w, apply_goal_hold-Keeps event noted w)
      | inr (s, e) ↦ ground (
        arith,
        hold-IsWellFormed noted true w,
        apply_goal_hold-Keeps event noted w,
        settle_stopped_goal-Keeps noted w,
        activate_stopped_goal-Keeps t.goal_status noted w (ground arith),
      )
    ]
