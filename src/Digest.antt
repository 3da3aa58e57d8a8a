-- ===== src/Digest.antt =====
-- `eventKey` and `recoveryEventID` of scripts/source/events.go. SHA-256 and the layout of a time are
-- parameters: `sha6` and `sha12` are the hexadecimal forms of the first 6 and 12 bytes of a digest.
use Prim.Native.String.{◌++◌}
use mathlib.Core.List.{◌++◌ as append}
use codex_auto_retry.Prelude.{String, Bool, true, false, Time}
use codex_auto_retry.Text.{Text, codes, trim_space, to_lower}
use codex_auto_retry.Model.{RelevantEvent}

pub record Digest : Type 0 where
  pub sha6 : Text → String
  pub sha12 : Text → String
  pub format_time : Time → String

-- `%t`
abbrev format_bool : Bool → String
format_bool true = "true"
format_bool false = "false"

module _ (digest : Digest) where
  unfoldable pub event_key : String → RelevantEvent → String
  event_key thread_id event =
      let completion = format_bool event.final_known ++ "|" ++ format_bool event.final_present in
      let sum = digest.sha6 (
        codes (
          event.error_text
          ++ "|"
          ++ completion
          ++ "|"
          ++ event.abort_reason
          ++ "|"
          ++ event.goal_status
          ++ "|"
          ++ digest.format_time event.goal_updated_at
          ++ "|"
          ++ event.parent_thread_id
          ++ "|"
          ++ event.recovery_event_id)) in
      thread_id
      ++ "|"
      ++ event.kind
      ++ "|"
      ++ event.turn_id
      ++ "|"
      ++ digest.format_time event.timestamp
      ++ "|"
      ++ sum

  unfoldable pub recovery_event_id : String → String → String
  recovery_event_id thread_id key =
      "car-"
      ++ digest.sha12
          (append (to_lower (trim_space (codes thread_id))) (append (codes "|") (codes key)))
