-- ===== src/Events/Notices.antt =====
-- The `response_item` lines of scripts/source/events.go: visible progress, and the notice of a recovery that
-- a parent thread gets. `decode` is `json.Unmarshal` on the text of a notice.
use codex_auto_retry.Prelude.{
  drop, ℕ, zero, suc, String, Bool, true, false, not, ◌&&◌, ◌||◌, List, [], ◌∷◌, Option, none, some,
  leb, ◌==◌, if◌then◌else◌, length, Time,
}
use Prim.Native.String.{◌++◌}
use codex_auto_retry.Text.{Text, codes, has_prefix}
use codex_auto_retry.Model.{RelevantEvent}
use codex_auto_retry.Runner.{trim_string}

pub record ContentItem : Type 0 where
  pub kind : String
  pub text : String

-- `names_recovery` is whether the payload's bytes contain the notice's prefix.
pub record ResponseItem : Type 0 where
  pub kind : String
  pub role : String
  pub content : List ContentItem
  pub names_recovery : Bool

pub record RecoveryNotice : Type 0 where
  pub parent_thread_id : String
  pub child_thread_id : String
  pub recovery_event_id : String
  pub action : String
  pub spawn_replacement : Bool

abbrev pub recovery_notice_prefix : String
recovery_notice_prefix = "codex-auto-retry:subagent-empty-response-recovery:v1:"

-- `[0-9a-f]{n}$`
unfoldable pub is_hex : ℕ → Text → Bool
is_hex zero [] = true
is_hex (suc n) (c ∷ t) = ((leb b'0' c && leb c b'9') || (leb b'a' c && leb c b'f')) && is_hex n t
is_hex _ _ = false

-- `recoveryEventIDPattern`
unfoldable pub is_recovery_event_id : String → Bool
unfolding is_hex
is_recovery_event_id id = has_prefix (codes id) (codes "car-") && is_hex 24 (drop 4 (codes id))

abbrev pub progress_event : Time → RelevantEvent
progress_event timestamp = record {
  kind = "task_progress";
  thread_id = "";
  turn_id = "";
  timestamp = timestamp;
  error_text = "";
  final_known = false;
  final_present = false;
  abort_reason = "";
  goal_status = "";
  goal_updated_at = 0;
  parent_thread_id = "";
  recovery_event_id = "";
}

module _ (lower thread_id_from_path : String → String) (decode : Text → Option RecoveryNotice)
    (timestamp : Time) where
  abbrev pub is_thread_id : String → Bool
  is_thread_id id = not (id == "") && thread_id_from_path (id ++ ".jsonl") == id

  abbrev pub notice_event : Option RecoveryNotice → Option RelevantEvent
  notice_event none = none
  notice_event (some notice) =
      let parent = lower (trim_string notice.parent_thread_id) in
      let child = lower (trim_string notice.child_thread_id) in
      let event = lower (trim_string notice.recovery_event_id) in
      if not (is_thread_id parent)
        || not (is_thread_id child)
        || parent == child
        || not (is_recovery_event_id event)
        || not (notice.action == "resume_existing_child")
        || notice.spawn_replacement
      then none
      else some (record (progress_event timestamp) {
        kind = "subagent_recovery_notice";
        thread_id = child;
        parent_thread_id = parent;
        recovery_event_id = event;
      })

  unfoldable pub parse_content : List ContentItem → Option RelevantEvent
  parse_content [] = none
  parse_content (item ∷ rest) =
      if not (item.kind == "input_text")
        || not (has_prefix (codes item.text) (codes recovery_notice_prefix))
      then parse_content rest
      else notice_event (decode (drop (length (codes recovery_notice_prefix)) (codes item.text)))

  abbrev pub or_progress : ResponseItem → Option RelevantEvent → Option RelevantEvent
  or_progress payload (some event) = some event
  or_progress payload none =
      if payload.kind == "custom_tool_call_output"
        || payload.kind == "function_call_output"
        || (payload.kind == "message" && payload.role == "assistant")
      then some (progress_event timestamp)
      else none

  -- The event of a `response_item` line with that time.
  unfoldable pub parse_response_item : ResponseItem → Option RelevantEvent
  unfolding parse_content
  parse_response_item payload = or_progress payload (
      if payload.kind == "message" && payload.role == "developer" && payload.names_recovery
      then parse_content payload.content
      else none)
