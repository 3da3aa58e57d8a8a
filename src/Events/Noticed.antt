-- ===== src/Events/Noticed.antt =====
-- What a recovery notice of scripts/source/events.go must say to be taken.
use codex_auto_retry.Runner.{trim_string}
use codex_auto_retry.Prelude.{
  drop, length, refl, ◌≢◌, Bool, if◌then◌else◌, ◌≡◌, ◌⊎◌, eq_iff, arith, String, true, false, ◌&&◌,
  List, [], ◌∷◌, Option, none, some, ◌==◌, Time, Bool-cases, inl, inr,
}
use codex_auto_retry.Text.{Text, codes, has_prefix}
use codex_auto_retry.Model.{RelevantEvent}
use codex_auto_retry.Events.Notices.{
  ContentItem, ResponseItem, RecoveryNotice, is_recovery_event_id, progress_event, is_thread_id,
  notice_event, parse_content, or_progress, parse_response_item, recovery_notice_prefix,
}

-- One of the items does.
abbrev pub Among : (ContentItem → Type 0) → List ContentItem → Type 0
Among P [] = ⊥
Among P (item ∷ rest) = P item ⊎ Among P rest

module _ (lower thread_id_from_path : String → String) (decode : Text → Option RecoveryNotice)
    (timestamp : Time) where
  -- The event of a notice that asks for the very child, with two different threads.
  pub record IsNotice (notice : RecoveryNotice) (event : RelevantEvent) : Type 0 where
    pub resumes : notice.action ≡ "resume_existing_child"
    pub replaces_none : notice.spawn_replacement ≡ false
    pub same : event ≡ record (progress_event timestamp) {
      kind = "subagent_recovery_notice";
      thread_id = lower (trim_string notice.child_thread_id);
      parent_thread_id = lower (trim_string notice.parent_thread_id);
      recovery_event_id = lower (trim_string notice.recovery_event_id);
    }
    pub child : is_thread_id lower thread_id_from_path decode timestamp event.thread_id ≡ true
    pub parent :
        is_thread_id lower thread_id_from_path decode timestamp event.parent_thread_id ≡ true
    pub apart : event.parent_thread_id ≢ event.thread_id
    pub identified : is_recovery_event_id event.recovery_event_id ≡ true

  -- The item's text is the prefix with such a notice.
  pub record Announces (event : RelevantEvent) (item : ContentItem) : Type 0 where
    pub input : item.kind ≡ "input_text"
    pub prefixed : has_prefix (codes item.text) (codes recovery_notice_prefix) ≡ true
    pub notice : RecoveryNotice
    pub decoded :
        decode (drop (length (codes recovery_notice_prefix)) (codes item.text)) ≡ some notice
    pub valid : IsNotice notice event

  notice_event-IsNotice :
      (notice : RecoveryNotice) (event : RelevantEvent)
      → notice_event lower thread_id_from_path decode timestamp (some notice) ≡ some event
      → IsNotice notice event
  notice_event-IsNotice notice event h = ground (
    arith,
    h,
    eq_iff notice.action "resume_existing_child",
    eq_iff (lower (trim_string notice.parent_thread_id))
        (lower (trim_string notice.child_thread_id)),
  )

  notice_event-decoded :
      (item : ContentItem) (found : Option RecoveryNotice) (event : RelevantEvent)
      → item.kind ≡ "input_text"
      → has_prefix (codes item.text) (codes recovery_notice_prefix) ≡ true
      → decode (drop (length (codes recovery_notice_prefix)) (codes item.text)) ≡ found
      → notice_event lower thread_id_from_path decode timestamp found ≡ some event
      → Announces event item
  notice_event-decoded item none event input prefixed decoded h = absurd (cc)
  notice_event-decoded item (some notice) event input prefixed decoded h = record {
    input = input;
    prefixed = prefixed;
    notice = notice;
    decoded = decoded;
    valid = notice_event-IsNotice notice event h;
  }

  parse_content-Announces :
      (content : List ContentItem) (event : RelevantEvent)
      → parse_content lower thread_id_from_path decode timestamp content ≡ some event
      → Among (Announces event) content
  unfolding parse_content
  parse_content-Announces [] event h = absurd (cc)
  parse_content-Announces (item ∷ rest) event h = elim (Bool-cases (item.kind == "input_text")) [
    | inl input ↦ elim (Bool-cases (has_prefix (codes item.text) (codes recovery_notice_prefix))) [
      | inl prefixed ↦ inl (
          notice_event-decoded item _ event ((eq_iff item.kind "input_text").0 input) prefixed refl
            (rw (input, prefixed) at h))
      | inr other ↦ inr (parse_content-Announces rest event (rw (input, other) at h))
    ]
    | inr other ↦ inr (parse_content-Announces rest event (rw other at h))
  ]

  or_progress-cases :
      (payload : ResponseItem) (found : Option RelevantEvent) (event : RelevantEvent)
      → or_progress lower thread_id_from_path decode timestamp payload found ≡ some event
      → (event ≡ progress_event timestamp) ⊎ (found ≡ some event)
  or_progress-cases payload none event h = ground (arith, h)
  or_progress-cases payload (some e) event h = inr h

  guarded-some :
      (b : Bool) (found : Option RelevantEvent) (event : RelevantEvent)
      → (if b then found else none) ≡ some event
      → (b ≡ true) × (found ≡ some event)
  guarded-some true found event h = (refl, h)
  guarded-some false found event h = absurd (cc)

  -- A response item is read as visible progress at its time, with nothing of its content, or as the
  -- notice of one of its items: from a developer message only, which asks to resume the existing child
  -- and to spawn no replacement, between two different threads, both with an identifier of the right
  -- form, as has the recovery itself.
  pub parse_response_item-Announces :
      (payload : ResponseItem) (event : RelevantEvent)
      → parse_response_item lower thread_id_from_path decode timestamp payload ≡ some event
      → (event ≡ progress_event timestamp)
        ⊎ ((payload.kind ≡ "message")
            × (payload.role ≡ "developer")
            × Among (Announces event) payload.content)
  unfolding parse_response_item
  parse_response_item-Announces payload event h = elim (or_progress-cases payload _ event h) [
    | inl e ↦ inl e
    | inr e ↦
        let (guard, parsed) =
          guarded-some
            (payload.kind == "message" && payload.role == "developer" && payload.names_recovery) _
            event e in
        inr (
          (eq_iff payload.kind "message").0 (ground (arith, guard)),
          (eq_iff payload.role "developer").0 (ground (arith, guard)),
          parse_content-Announces payload.content event parsed,
        )
  ]
