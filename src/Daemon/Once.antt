-- ===== src/Daemon/Once.antt =====
-- `handleEventLocked` of scripts/source/retry_state.go handles an event once.
use text.Mathlib.TextPositions.{eq_refl}
use codex_auto_retry.Prelude.{
  ◌≡◌, refl, Option, Time, Bool-cases, inl, inr, has_entry, assign, entry-assign, String, true,
  Table, Bool, false, if◌then◌else◌, List, [], ◌∷◌, ◌==◌,
}
use codex_auto_retry.Text.{Text}
use codex_auto_retry.Classifier.CcSwitch.{Json}
use codex_auto_retry.Digest.{Digest, event_key}
use codex_auto_retry.Thread.{ScannedEvent}
use codex_auto_retry.Daemon.{Daemon, apply_reply}
use codex_auto_retry.Daemon.Handle.{handle_event, handle_events, skips_event}

assigned : (m : Table Time) (k : String) (v : Time) → has_entry (assign m k v) k ≡ true
assigned m k v = rw (entry-assign m k k v, eq_refl k)

assigned_elsewhere :
    (m : Table Time) (k j : String) (v : Time)
    → has_entry m j ≡ true
    → has_entry (assign m k v) j ≡ true
assigned_elsewhere m k j v known = elim (Bool-cases (j == k)) [
  | inl e ↦ rw (entry-assign m k j v, e) refl
  | inr e ↦ rw (entry-assign m k j v, e) known
]

module _ (decode : Text → Option Json) (digest : Digest) where
  -- Whether the event was new or not, its key is known afterwards.
  handle_event-known :
      (now : Time) (item : ScannedEvent) (d : Daemon)
      → has_entry
          (handle_event decode digest now item d).processed_events
          (event_key digest item.thread_id item.event)
        ≡ true
  unfolding handle_event apply_reply
  handle_event-known now item d =
      let key = event_key digest item.thread_id item.event in
      elim (Bool-cases (has_entry d.processed_events key)) [
        | inl e ↦ rw e e
        | inr e ↦ rw e (assigned d.processed_events key now)
      ]

  handle_event-skip :
      (now : Time) (item : ScannedEvent) (d : Daemon)
      → has_entry d.processed_events (event_key digest item.thread_id item.event) ≡ true
      → handle_event decode digest now item d ≡ d
  unfolding handle_event
  handle_event-skip now item d e = rw e refl

  -- A key that is known stays known while events are handled.
  handle_event-remembers :
      (now : Time) (item : ScannedEvent) (d : Daemon) (key : String)
      → has_entry d.processed_events key ≡ true
      → has_entry (handle_event decode digest now item d).processed_events key ≡ true
  unfolding handle_event apply_reply
  handle_event-remembers now item d key known =
      let k = event_key digest item.thread_id item.event in
      elim (Bool-cases (has_entry d.processed_events k)) [
        | inl e ↦ rw e known
        | inr e ↦ rw e (assigned_elsewhere d.processed_events k key now known)
      ]

  skipped-remembers :
      (skips : Bool) (now : Time) (item : ScannedEvent) (d : Daemon) (key : String)
      → has_entry d.processed_events key ≡ true
      → has_entry (if skips then d else handle_event decode digest now item d).processed_events key
        ≡ true
  skipped-remembers true now item d key known = known
  skipped-remembers false now item d key known = handle_event-remembers now item d key known

  handle_events-remembers :
      (now : Time) (items : List ScannedEvent) (d : Daemon) (key : String)
      → has_entry d.processed_events key ≡ true
      → has_entry (handle_events decode digest now items d).processed_events key ≡ true
  unfolding handle_events
  handle_events-remembers now [] d key known = known
  handle_events-remembers now (item ∷ rest) d key known =
      handle_events-remembers now rest _ key
        (skipped-remembers (skips_event d item) now item d key known)

  -- An event that is scanned again, in the same rollout file or in a mirror of it, changes nothing of the
  -- daemon, whatever events have been handled in between: its key is known from then on. Pruning, which
  -- forgets old keys, is no part of this.
  pub handle_event-once :
      (now next again : Time) (item mirror : ScannedEvent) (between : List ScannedEvent)
      (d : Daemon)
      → event_key digest mirror.thread_id mirror.event ≡ event_key digest item.thread_id item.event
      → let handled = handle_event decode digest now item d in
        let later = handle_events decode digest next between handled in
        handle_event decode digest again mirror later ≡ later
  handle_event-once now next again item mirror between d same =
      handle_event-skip again mirror _
        (rw same (handle_events-remembers next between _ _ (handle_event-known now item d)))
