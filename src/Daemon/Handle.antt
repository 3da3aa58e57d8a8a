-- ===== src/Daemon/Handle.antt =====
-- `handleEventLocked` of scripts/source/retry_state.go, and the loop of `tick` over the scanned events.
use codex_auto_retry.Prelude.{
  ◌-◌, ◌*◌, String, Bool, ◌&&◌, List, [], ◌∷◌, Option, ◌==◌, Time, second, before, assign,
  has_entry, if◌then◌else◌,
}
use codex_auto_retry.Text.{Text}
use codex_auto_retry.Model.{ThreadState}
use codex_auto_retry.Classifier.CcSwitch.{Json}
use codex_auto_retry.Digest.{Digest, event_key, recovery_event_id}
use codex_auto_retry.Thread.{Reply, ScannedEvent, no_change}
use codex_auto_retry.Thread.Events.{handle_task_started}
use codex_auto_retry.Thread.Turns.{
  handle_task_user_input, handle_task_progress, handle_task_complete, handle_turn_aborted,
  handle_subagent_recovery_notice,
}
use codex_auto_retry.Thread.GoalUpdate.{handle_goal_updated}
use codex_auto_retry.Config.{Config}
use codex_auto_retry.Daemon.{Daemon, thread_of, apply_reply}

-- Old history of a thread that another store owns is skipped.
abbrev pub skips_event : Daemon → ScannedEvent → Bool
skips_event d item = item.mirrored && before item.event.timestamp (d.started_at - 3 * second)

module _ (decode : Text → Option Json) (digest : Digest) where
  -- The `switch` on the event's kind.
  unfoldable pub handle_kind : Config → ScannedEvent → String → Time → ThreadState → Reply
  handle_kind config item key now thread =
      let event = item.event in
      if event.kind == "task_started"
      then handle_task_started event thread
      else if event.kind == "task_user_input"
      then handle_task_user_input event thread
      else if event.kind == "task_progress"
      then handle_task_progress event thread
      else if event.kind == "task_complete"
      then handle_task_complete decode config item key now thread
      else if event.kind == "turn_aborted"
      then handle_turn_aborted event thread
      else if event.kind == "thread_goal_updated"
      then handle_goal_updated event thread
      else if event.kind == "subagent_recovery_notice"
      then handle_subagent_recovery_notice (recovery_event_id digest item.thread_id) event thread
      else no_change

  unfoldable pub handle_event : Time → ScannedEvent → Daemon → Daemon
  handle_event now item d =
      let key = event_key digest item.thread_id item.event in
      let noted = record d { processed_events = assign d.processed_events key now } in
      if has_entry d.processed_events key
      then d
      else apply_reply noted item.thread_id
          (handle_kind d.config item key now (thread_of d item.thread_id))

  unfoldable pub handle_events : Time → List ScannedEvent → Daemon → Daemon
  handle_events now [] d = d
  handle_events now (item ∷ rest) d =
      handle_events now rest (if skips_event d item then d else handle_event now item d)

-- `sort.SliceStable(events, by timestamp)`
unfoldable pub insert_event : ScannedEvent → List ScannedEvent → List ScannedEvent
insert_event item [] = item ∷ []
insert_event item (next ∷ rest) =
    if before next.event.timestamp item.event.timestamp
    then next ∷ insert_event item rest
    else item ∷ next ∷ rest

unfoldable pub sort_events : List ScannedEvent → List ScannedEvent
unfolding insert_event
sort_events [] = []
sort_events (item ∷ rest) = insert_event item (sort_events rest)
