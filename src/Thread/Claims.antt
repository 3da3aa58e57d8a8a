-- ===== src/Thread/Claims.antt =====
-- Which turns end a recovery and which belong to it (scripts/source/retry_state.go,
-- subagent_recovery.go, goal_recovery.go).
use text.Mathlib.TextPositions.{eq_refl}
use codex_auto_retry.Prelude.{
  if◌then◌else◌, ap, ◌≡◌, ◌≢◌, refl, arith, String, Bool, true, false, Option, none, some, Time,
  ◌==◌, eq_iff, Bool-cases, inl, inr,
}
use codex_auto_retry.Text.{Text}
use codex_auto_retry.Config.{Config}
use codex_auto_retry.Classifier.CcSwitch.{Json}
use codex_auto_retry.Model.{ThreadState, AwaitingRetry, RelevantEvent}
use codex_auto_retry.Goal.{automatic_goal_limit_stopped}
use codex_auto_retry.Thread.{no_change, ScannedEvent, reset_retry_state, cancel_retry}
use codex_auto_retry.Thread.Events.{
  handle_task_started, adopt_turn, started_while_awaiting, started_while_pending,
}
use codex_auto_retry.Thread.Turns.{or_last_started, handle_turn_aborted, handle_task_complete}
use codex_auto_retry.Thread.GoalUpdate.{
  handle_goal_updated, is_stale, note_goal, activate_stopped_goal, settle_stopped_goal,
  apply_goal_hold,
}
use codex_auto_retry.Thread.WellFormed.{IsWellFormed}

abbrev pub awaits_turn : String → Option AwaitingRetry → Bool
awaits_turn id none = true
awaits_turn id (some awaiting) = awaiting.retry_turn_id == id

abbrev pub stored_or_same : ThreadState → Option ThreadState → ThreadState
stored_or_same t none = t
stored_or_same t (some t') = t'

-- Once a turn has started on a thread whose goal is not stopped, no retry waits there any more, and the
-- only retry that is awaited is the one that this turn is.
pub handle_task_started-claims :
    (event : RelevantEvent) (t : ThreadState)
    → IsWellFormed t
    → automatic_goal_limit_stopped t ≡ false
    → let t' = stored_or_same t (handle_task_started event t).stored in
      (t'.pending ≡ none) × (awaits_turn event.turn_id t'.awaiting ≡ true)
unfolding handle_task_started started_while_awaiting started_while_pending adopt_turn cancel_retry
    reset_retry_state automatic_goal_limit_stopped
handle_task_started-claims event t v going = ground (arith, eq_refl event.turn_id, v, going)

-- After an aborted turn, unless the goal's limit has stopped the thread, nothing is left to retry; and
-- when the completion of the aborted turn follows, which is the turn that started last where the abort
-- names none, it schedules nothing either. The turn that is aborted has an identifier.
pub handle_task_complete-turn_aborted :
    (decode : Text → Option Json) (config : Config) (item : ScannedEvent) (key : String)
    (now : Time) (event : RelevantEvent) (t : ThreadState)
    → automatic_goal_limit_stopped t ≡ false
    → let turn = if event.turn_id == "" then t.last_started_turn_id else event.turn_id in
      turn ≢ ""
      → item.event.turn_id ≡ turn
      → let aborted = stored_or_same t (handle_turn_aborted event t).stored in
        let completed =
          stored_or_same aborted (handle_task_complete decode config item key now aborted).stored in
        (aborted.pending ≡ none)
        × (aborted.awaiting ≡ none)
        × (completed.pending ≡ none)
        × (completed.awaiting ≡ none)
        × (completed.stopped ≡ none)
unfolding handle_turn_aborted handle_task_complete reset_retry_state automatic_goal_limit_stopped
handle_task_complete-turn_aborted decode config item key now event t going named same = ground (
  arith,
  going,
  named,
  same,
  eq_refl (or_last_started event.turn_id t),
  eq_iff item.event.turn_id (or_last_started event.turn_id t),
  eq_iff (or_last_started event.turn_id t) "",
)

is_stale-again :
    (event : RelevantEvent) (t : ThreadState)
    → event.timestamp ≢ 0
    → t.goal_observed_at ≡ event.timestamp
    → is_stale t event ≡ true
unfolding is_stale
is_stale-again event t set seen = ground (arith, set, seen)

-- The hold of the goal does not touch the time of the observation.
apply_goal_hold-observed :
    (event : RelevantEvent) (t u : ThreadState)
    → (stored_or_same u (apply_goal_hold event t).stored).goal_observed_at ≡ t.goal_observed_at
unfolding apply_goal_hold reset_retry_state
apply_goal_hold-observed event t u = ground arith

activate_stopped_goal-observed :
    (previous : String) (t u : ThreadState)
    → (stored_or_same u (activate_stopped_goal previous t).stored).goal_observed_at
      ≡ t.goal_observed_at
unfolding activate_stopped_goal
activate_stopped_goal-observed previous t u = ground arith

handle_goal_updated-observed :
    (event : RelevantEvent) (t : ThreadState)
    → is_stale t event ≡ false
    → (stored_or_same t (handle_goal_updated event t).stored).goal_observed_at ≡ event.timestamp
unfolding handle_goal_updated settle_stopped_goal
handle_goal_updated-observed event t fresh = ground (
  arith,
  fresh,
  apply_goal_hold-observed event (note_goal t event) t,
  activate_stopped_goal-observed t.goal_status (note_goal t event) t,
)

handle_goal_updated-stale :
    (event : RelevantEvent) (t : ThreadState)
    → is_stale t event ≡ true
    → handle_goal_updated event t ≡ no_change
unfolding handle_goal_updated
handle_goal_updated-stale event t stale = rw stale refl

-- A goal update with a time that is observed a second time changes nothing, cancels no job and reports no
-- error: the first observation, stale or not, makes the second one stale.
pub handle_goal_updated-once :
    (event : RelevantEvent) (t : ThreadState)
    → event.timestamp ≢ 0
    → let seen = stored_or_same t (handle_goal_updated event t).stored in
      handle_goal_updated event seen ≡ no_change
handle_goal_updated-once event t set = elim (Bool-cases (is_stale t event)) [
  | inl stale ↦
      let unseen : (handle_goal_updated event t).stored ≡ none =
        ap (λ r. r.stored) (handle_goal_updated-stale event t stale) in
      rw unseen (handle_goal_updated-stale event t stale)
  | inr fresh ↦
      handle_goal_updated-stale event _
        (is_stale-again event _ set (handle_goal_updated-observed event t fresh))
]
