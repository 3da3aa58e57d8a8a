-- ===== src/Events/Laws.antt =====
-- What the parser of scripts/source/events.go promises to the classification.
use codex_auto_retry.Prelude.{
  ℕ, zero, suc, ◌≤◌, ◌≡◌, refl, arith, String, Bool, true, false, not, List, [], ◌∷◌, Option, none,
  some, leb, length, All, Time, Bool-cases, ◌∙◌, inl, inr,
}
use codex_auto_retry.Text.{is_blank, Text}
use codex_auto_retry.Model.{RelevantEvent}
use codex_auto_retry.Config.{Config}
use codex_auto_retry.Classifier.{classify_completion_failure, completion_succeeded}
use codex_auto_retry.Classifier.CcSwitch.{Json}
use codex_auto_retry.Classifier.Laws.{completion_succeeded-decision}
use codex_auto_retry.Events.{
  EventPayload, message_event, extract_error_text, parse_event_message, completed,
  completion_message_state, Value, null, scalar, text, array, object, Values, no_value, element,
  Members, Collector, max_parts, each_value, collect_found, each_member, append_part, error_keys,
  collect_value, collect_error_strings, find_member,
}

-- At most twelve parts, none of them blank.
pub record FewParts (parts : List String) : Type 0 where
  pub few : length parts ≤ 12
  pub not_blank : All (λ t. is_blank t ≡ false) parts

append_part-All :
    (t : String) (parts : List String)
    → is_blank t ≡ false
    → All (λ u. is_blank u ≡ false) parts
    → All (λ u. is_blank u ≡ false) (append_part t parts)
append_part-All t [] b all = (b, tt)
append_part-All t (part ∷ parts) b (first, all) = (first, append_part-All t parts b all)

length-append_part :
    (t : String) (parts : List String) → length (append_part t parts) ≡ suc (length parts)
length-append_part t [] = refl
length-append_part t (part ∷ parts) = rw (length-append_part t parts) refl

-- That collecting keeps to few parts.
abbrev Collects : Collector → Type 0
Collects collect =
    (value : Value) (parts : List String) → FewParts parts → FewParts (collect value parts)

module _ (collect : Collector) (keeps : Collects collect) where
  each_value-FewParts :
      (values : Values) (parts : List String)
      → FewParts parts
      → FewParts (each_value collect values parts)
  each_value-FewParts no_value parts few = few
  each_value-FewParts (element value rest) parts few =
      each_value-FewParts rest (collect value parts) (keeps value parts few)

  collect_found-FewParts :
      (found : Option Value) (parts : List String)
      → FewParts parts
      → FewParts (collect_found collect found parts)
  collect_found-FewParts none parts few = few
  collect_found-FewParts (some value) parts few = keeps value parts few

  each_member-FewParts :
      (members : Members) (keys : List String) (parts : List String)
      → FewParts parts
      → FewParts (each_member collect members keys parts)
  unfolding each_member
  each_member-FewParts members [] parts few = few
  each_member-FewParts members (key ∷ keys) parts few =
      each_member-FewParts members keys _
        (collect_found-FewParts (find_member members key) parts few)

  text-FewParts :
      (t : String) (parts : List String)
      → FewParts parts
      → leb max_parts (length parts) ≡ false
      → FewParts (collect_value collect (text t) parts)
  unfolding collect_value
  text-FewParts t parts few room = elim (Bool-cases (is_blank t)) [
    | inl b ↦ rw b few
    | inr b ↦ rw b (record {
      few = rw (length-append_part t parts) (ground (arith, room));
      not_blank = append_part-All t parts b few.not_blank;
    })
  ]

  collect_value-FewParts :
      (value : Value) (parts : List String)
      → FewParts parts
      → leb max_parts (length parts) ≡ false
      → FewParts (collect_value collect value parts)
  unfolding collect_value
  collect_value-FewParts null parts few room = few
  collect_value-FewParts scalar parts few room = few
  collect_value-FewParts (text t) parts few room = text-FewParts t parts few room
  collect_value-FewParts (array values) parts few room = each_value-FewParts values parts few
  collect_value-FewParts (object members) parts few room =
      each_member-FewParts members error_keys parts few

-- However deep and wide an error value is, if at most twelve texts were collected before it, none of them
-- blank, then at most twelve texts are collected with it, and none of them is blank.
pub collect_error_strings-FewParts :
    (levels : ℕ) (value : Value) (parts : List String)
    → FewParts parts
    → FewParts (collect_error_strings levels value parts)
unfolding collect_error_strings
collect_error_strings-FewParts zero value parts few = few
collect_error_strings-FewParts (suc levels) value parts few =
    elim (Bool-cases (leb max_parts (length parts))) [
      | inl full ↦ rw full few
      | inr room ↦ rw room (
          collect_value-FewParts (collect_error_strings levels)
            (collect_error_strings-FewParts levels) value parts few room)
    ]

-- Whether a message is known to be missing: an explicit `null`, or a text with nothing but space.
abbrev pub is_missing_message : Option Value → Bool
is_missing_message (some null) = true
is_missing_message (some (text t)) = is_blank t
is_missing_message _ = false

missing :
    (event : RelevantEvent) (message : Option Value)
    → is_blank event.error_text ≡ true
    → not (completion_succeeded (completed event (completion_message_state message)))
      ≡ is_missing_message message
unfolding completion_succeeded
missing event none blank = rw blank refl
missing event (some null) blank = rw blank refl
missing event (some scalar) blank = rw blank refl
missing event (some (text t)) blank = elim (Bool-cases (is_blank t)) [
  | inl e ↦ rw (blank, e) refl
  | inr e ↦ rw (blank, e) refl
]
missing event (some (array values)) blank = rw blank refl
missing event (some (object members)) blank = rw blank refl

module _ (lower thread_id_from_path : String → String) (decode : Text → Option Json) where
  completed-decision :
      (config : Config) (event : RelevantEvent) (message : Option Value)
      → is_blank event.error_text ≡ true
      → (classify_completion_failure decode
          (completed event (completion_message_state message))
          config).retry
        ≡ is_missing_message message
  unfolding completion_succeeded
  completed-decision config event message blank =
      let decision =
        completion_succeeded-decision decode config
          (completed event (completion_message_state message)) blank in
      decision.0 ∙ missing event message blank

  -- A completion whose error text is blank is read as an event at its own time and turn, and is retried
  -- exactly if its last message is known to be missing, `null` or blank: one that is not there, or is
  -- neither `null` nor a text, is never retried.
  pub parse_event_message-classify_completion_failure :
      (config : Config) (timestamp : Time) (payload : EventPayload)
      → payload.kind ≡ "task_complete"
      → is_blank (extract_error_text payload.error) ≡ true
      → (event : RelevantEvent) × (parse_event_message lower thread_id_from_path timestamp payload
          ≡ some event)
        × (event.turn_id ≡ payload.turn_id)
        × (event.timestamp ≡ timestamp)
        × ((classify_completion_failure decode event config).retry
            ≡ is_missing_message payload.last_agent_message)
  unfolding parse_event_message message_event
  parse_event_message-classify_completion_failure config timestamp payload kind blank =
      let state = completion_message_state payload.last_agent_message in
      (
        completed (message_event timestamp payload) state,
        rw kind refl,
        refl,
        refl,
        completed-decision config (message_event timestamp payload) payload.last_agent_message
            blank,
      )
