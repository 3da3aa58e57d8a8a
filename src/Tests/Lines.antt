-- ===== src/Tests/Lines.antt =====
-- The theorems on the parser of rollout lines, each at a concrete line.
use codex_auto_retry.Prelude.{
  ◌≡◌, ◌⊎◌, ◌==◌, if◌then◌else◌, refl, arith, String, true, false, [], ◌∷◌, Option, none, some,
}
use codex_auto_retry.Text.{Text, is_blank, is_space, has_prefix}
use codex_auto_retry.Model.{RelevantEvent}
use codex_auto_retry.Config.{default_config}
use codex_auto_retry.Classifier.{classify_completion_failure}
use codex_auto_retry.Runner.{trim_string, trim_string_left, trim_string_right}
use codex_auto_retry.Events.{
  Value, null, text, array, element, no_value, object, member, no_member, EventPayload,
  collect_error_strings, extract_error_text, parse_event_message,
}
use codex_auto_retry.Events.Laws.{
  FewParts, is_missing_message, collect_error_strings-FewParts,
  parse_event_message-classify_completion_failure,
}
use codex_auto_retry.Events.Notices.{
  ResponseItem, RecoveryNotice, progress_event, parse_response_item, parse_content,
  is_recovery_event_id, is_hex,
}
use codex_auto_retry.Events.Noticed.{Among, Announces, parse_response_item-Announces}
use codex_auto_retry.Tests.Data.{no_json, failed_at, now}

-- A decoded error with an inner error and a list.
abbrev error : Value
error = object (
    member "message" (text "overloaded") (
      member "error" (object (member "code" (text "503") no_member))
        (member "detail" (array (element (text " ") (element (text "retry") no_value))) no_member)))

no_parts : FewParts []
no_parts = record { few = omega arith; not_blank = tt }

collect_error_strings-FewParts_example : FewParts (collect_error_strings 5 error [])
collect_error_strings-FewParts_example = collect_error_strings-FewParts 5 error [] no_parts

-- The texts are in lower case already.
abbrev same : String → String
same s = s

-- The rollouts are those of two threads.
abbrev thread_of_path : String → String
thread_of_path path = if path == "a.jsonl" then "a" else "b"

abbrev ended : EventPayload
ended = record {
  kind = "task_complete";
  thread_id = "";
  turn_id = "turn-1";
  error = some null;
  last_agent_message = some null;
  reason = "";
  goal = none;
}

parse_event_message-classify_completion_failure_example :
    (event : RelevantEvent) × (parse_event_message same thread_of_path failed_at ended ≡ some event)
    × (event.turn_id ≡ ended.turn_id)
    × (event.timestamp ≡ failed_at)
    × ((classify_completion_failure no_json event default_config).retry
        ≡ is_missing_message ended.last_agent_message)
unfolding extract_error_text is_blank
parse_event_message-classify_completion_failure_example =
    parse_event_message-classify_completion_failure same thread_of_path no_json default_config
      failed_at ended refl refl

abbrev notice : RecoveryNotice
notice = record {
  parent_thread_id = "a";
  child_thread_id = "b";
  recovery_event_id = "car-0123456789abcdef01234567";
  action = "resume_existing_child";
  spawn_replacement = false;
}

abbrev read_notice : Text → Option RecoveryNotice
read_notice t = some notice

abbrev notice_line : ResponseItem
notice_line = record {
  kind = "message";
  role = "developer";
  content =
      record {
        kind = "input_text";
        text = "codex-auto-retry:subagent-empty-response-recovery:v1:{}";
      }
      ∷ [];
  names_recovery = true;
}

abbrev notice_read : RelevantEvent
notice_read = record (progress_event now) {
  kind = "subagent_recovery_notice";
  thread_id = "b";
  parent_thread_id = "a";
  recovery_event_id = "car-0123456789abcdef01234567";
}

notice_line_read :
    parse_response_item same thread_of_path read_notice now notice_line ≡ some notice_read
unfolding parse_response_item parse_content has_prefix trim_string trim_string_left
    trim_string_right is_space is_recovery_event_id is_hex
notice_line_read = refl

parse_response_item-Announces_example :
    (notice_read ≡ progress_event now)
    ⊎ ((notice_line.kind ≡ "message")
        × (notice_line.role ≡ "developer")
        × Among (Announces same thread_of_path read_notice now notice_read) notice_line.content)
parse_response_item-Announces_example =
    parse_response_item-Announces same thread_of_path read_notice now notice_line notice_read
      notice_line_read
