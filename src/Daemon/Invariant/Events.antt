-- ===== src/Daemon/Invariant/Events.antt =====
-- `handleEventLocked` of scripts/source/retry_state.go keeps every thread well-formed.
use codex_auto_retry.Prelude.{
  String, List, [], ◌∷◌, Option, arith, Time, Bool-cases, inl, inr, has_entry,
}
use codex_auto_retry.Text.{Text}
use codex_auto_retry.Model.{ThreadState}
use codex_auto_retry.Config.{Config}
use codex_auto_retry.Classifier.CcSwitch.{Json}
use codex_auto_retry.Digest.{Digest, event_key, recovery_event_id}
use codex_auto_retry.Thread.{ScannedEvent}
use codex_auto_retry.Thread.WellFormed.{IsWellFormed, Keeps}
use codex_auto_retry.Thread.WellFormed.Started.{handle_task_started-Keeps}
use codex_auto_retry.Thread.WellFormed.Turns.{
  handle_task_user_input-Keeps, handle_task_progress-Keeps, handle_turn_aborted-Keeps,
  handle_task_complete-Keeps, handle_subagent_recovery_notice-Keeps,
}
use codex_auto_retry.Thread.WellFormed.Goals.{handle_goal_updated-Keeps}
use codex_auto_retry.Daemon.{Daemon}
use codex_auto_retry.Daemon.Handle.{handle_kind, handle_event, handle_events, skips_event}
use codex_auto_retry.Daemon.Invariant.Loops.{
  AllWellFormed, choose-AllWellFormed, apply_reply-AllWellFormed, thread_of-IsWellFormed,
}

module _ (decode : Text → Option Json) (digest : Digest) where
  pub handle_kind-Keeps :
      (config : Config) (item : ScannedEvent) (key : String) (now : Time) (t : ThreadState)
      → IsWellFormed t
      → Keeps (handle_kind decode digest config item key now t)
  unfolding handle_kind
  handle_kind-Keeps config item key now t v = ground (
    arith,
    handle_task_started-Keeps item.event t v,
    handle_task_user_input-Keeps item.event t v,
    handle_task_progress-Keeps item.event t v,
    handle_task_complete-Keeps decode config item key now t v,
    handle_turn_aborted-Keeps item.event t v,
    handle_goal_updated-Keeps item.event t v,
    handle_subagent_recovery_notice-Keeps (recovery_event_id digest item.thread_id) item.event t v,
  )

  pub handle_event-AllWellFormed :
      (now : Time) (item : ScannedEvent) (d : Daemon)
      → AllWellFormed d
      → AllWellFormed (handle_event decode digest now item d)
  unfolding handle_event
  handle_event-AllWellFormed now item d h =
      let key = event_key digest item.thread_id item.event in
      elim (Bool-cases (has_entry d.processed_events key)) [
        | inl e ↦ rw e h
        | inr e ↦ rw e (
            apply_reply-AllWellFormed _ item.thread_id _ h (
              handle_kind-Keeps d.config item key now _
                (thread_of-IsWellFormed d item.thread_id h)))
      ]

  pub handle_events-AllWellFormed :
      (now : Time) (items : List ScannedEvent) (d : Daemon)
      → AllWellFormed d
      → AllWellFormed (handle_events decode digest now items d)
  unfolding handle_events
  handle_events-AllWellFormed now [] d h = h
  handle_events-AllWellFormed now (item ∷ rest) d h =
      handle_events-AllWellFormed now rest _
        (choose-AllWellFormed (skips_event d item) d _ h (handle_event-AllWellFormed now item d h))
