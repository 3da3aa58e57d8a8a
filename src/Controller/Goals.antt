-- ===== src/Controller/Goals.antt =====
-- The goal of a thread as the app-server tells it (scripts/source/shared_controller.go).
use codex_auto_retry.Prelude.{
  ℕ, ◌+◌, ◌-◌, ◌*◌, ◌/◌, String, Bool, true, false, not, ◌&&◌, ◌||◌, Option, none, some, ltb, eqb,
  ◌==◌, if◌then◌else◌, Time, second, is_zero, before, after,
}
use Prim.Native.String.{◌++◌}
use codex_auto_retry.Events.{unix_epoch}

-- `updatedAt` as it is read: a positive float64, or a text that is one, by its whole part and whether it
-- has a fraction; a text that is a date; or none of these.
pub data GoalTime : Type 0 where
  no_time : GoalTime
  count : ℕ → Bool → GoalTime
  date : Time → GoalTime

-- `revision` is the JSON of `updatedAt`.
pub record AppGoal : Type 0 where
  pub status : String
  pub updated_at : GoalTime
  pub revision : String

abbrev pub most_seconds : ℕ
most_seconds = 100000000000

abbrev pub goal_time : GoalTime → Time
goal_time no_time = 0
goal_time (date at) = at
goal_time (count n fraction) =
    if ltb most_seconds n || (eqb n most_seconds && fraction)
    then unix_epoch + n * (second / 1000)
    else unix_epoch + n * second

unfoldable pub app_goal_updated_at : AppGoal → Time
app_goal_updated_at goal = goal_time goal.updated_at

unfoldable pub app_blocked_by_failure : AppGoal → Time → Bool → Bool
unfolding app_goal_updated_at
app_blocked_by_failure goal failed_at goal_limit_restart =
    let updated = app_goal_updated_at goal in
    if not (goal.status == "blocked")
    then false
    else if goal_limit_restart
    then true
    else not (is_zero failed_at)
      && not (is_zero updated)
      && not (before updated (failed_at - 2 * second))
      && not (after updated (failed_at + 5 * second))

unfoldable pub app_held_conversation_allowed : Option AppGoal → Time → Time → Bool → Bool
unfolding app_blocked_by_failure
app_held_conversation_allowed none failed_at started_at goal_limit_restart = false
app_held_conversation_allowed (some goal) failed_at started_at goal_limit_restart =
    let updated = app_goal_updated_at goal in
    if is_zero started_at || is_zero updated || after updated started_at
    then false
    else goal.status == "paused"
      || (goal.status == "blocked"
          && not (app_blocked_by_failure goal failed_at goal_limit_restart))

unfoldable pub app_goal_revision : Option AppGoal → String
app_goal_revision none = ""
app_goal_revision (some goal) = goal.status ++ "|" ++ goal.revision

unfoldable pub app_goal_hold_reason : Option AppGoal → Time → Bool → String
unfolding app_blocked_by_failure
app_goal_hold_reason none failed_at goal_limit_restart = ""
app_goal_hold_reason (some goal) failed_at goal_limit_restart =
    if goal.status == "active"
    then ""
    else if goal.status == "blocked"
    then (if app_blocked_by_failure goal failed_at goal_limit_restart
        then ""
        else "goal_blocked_before_failure")
    else if goal.status == "paused"
    then "goal_paused"
    else if goal.status == "completed" || goal.status == "complete"
    then "goal_completed"
    else if goal.status == "usageLimited"
    then "goal_usage_limited"
    else if goal.status == "budgetLimited"
    then "goal_budget_limited"
    else "goal_status_unsupported"
