-- ===== src/Runner.antt =====
-- The result of a dispatch and the reason codes of scripts/source/runner.go.
pub mod Laws
pub mod Resume
pub mod Sent
use Prim.Native.Char.{Char, code}
use codex_auto_retry.Prelude.{
  ℕ, String, Bool, true, false, not, ◌&&◌, ◌||◌, [], ◌∷◌, Option, none, some, ltb, leb, eqb, ◌==◌,
  length, is_some, if◌then◌else◌,
}
use codex_auto_retry.Text.{Text, codes, is_space}
use codex_auto_retry.Model.{
  RetryAction, no_action, action_goal_resume, action_goal_active, action_conversation_continue,
  action_subagent_continue, action_goal_block,
}

-- `unknown_outcome` stands for every other text, "" among them.
pub data DispatchOutcome : Type 0 where
  dispatched awaiting_start user_active retry_later not_applicable unknown_outcome : DispatchOutcome

pub record DispatchResult : Type 0 where
  pub outcome : DispatchOutcome
  pub action : RetryAction
  pub reason : String
  pub parent_notified : Bool

-- What `errors.As` and `errors.Is` find in the error of a dispatch: a reason of the controller, one of
-- the named errors, or none of these.
pub data ControllerError : Type 0 where
  controller_reason : String → ControllerError
  controller_timeout port_reserved port_conflict ownership_unknown : ControllerError
  migration_deferred environment_conflict config_invalid server_unavailable : ControllerError
  app_server_request invalid_result restart_required server_disabled : ControllerError
  settings_unavailable other_error : ControllerError

-- `strings.TrimSpace` on a `String`.
unfoldable pub trim_string_left : String → String
trim_string_left String.[] = String.[]
trim_string_left (String.◌∷◌ c s) = if is_space (code c) then trim_string_left s else String.◌∷◌ c s

abbrev cons_unless_blank : Char → String → String
cons_unless_blank c String.[] = if is_space (code c) then String.[] else String.◌∷◌ c String.[]
cons_unless_blank c (String.◌∷◌ d s) = String.◌∷◌ c (String.◌∷◌ d s)

unfoldable pub trim_string_right : String → String
trim_string_right String.[] = String.[]
trim_string_right (String.◌∷◌ c s) = cons_unless_blank c (trim_string_right s)

unfoldable pub trim_string : String → String
trim_string s = trim_string_right (trim_string_left s)

abbrev pub is_reason_rune : ℕ → Bool
is_reason_rune c =
    eqb c b'_' || eqb c b'-' || (leb b'a' c && leb c b'z') || (leb b'0' c && leb c b'9')

unfoldable pub all_reason_runes : Text → Bool
all_reason_runes [] = true
all_reason_runes (c ∷ rest) = is_reason_rune c && all_reason_runes rest

-- A code is ASCII, so its runes are its bytes.
unfoldable pub safe_reason_code : String → String
safe_reason_code value =
    let trimmed = trim_string value in
    if trimmed == "" || ltb 64 (length (codes trimmed)) || not (all_reason_runes (codes trimmed))
    then ""
    else trimmed

abbrev pub is_dispatch_action : RetryAction → Bool
is_dispatch_action action_goal_resume = true
is_dispatch_action action_conversation_continue = true
is_dispatch_action action_subagent_continue = true
is_dispatch_action action_goal_block = true
is_dispatch_action _ = false

abbrev pub is_goal_active : RetryAction → Bool
is_goal_active action_goal_active = true
is_goal_active _ = false

abbrev pub is_goal_block : RetryAction → Bool
is_goal_block action_goal_block = true
is_goal_block _ = false

abbrev pub is_no_action : RetryAction → Bool
is_no_action no_action = true
is_no_action _ = false

abbrev pub fits_outcome : DispatchResult → DispatchOutcome → Bool
fits_outcome result dispatched = is_dispatch_action result.action
fits_outcome result awaiting_start = is_goal_active result.action
fits_outcome result user_active = true
fits_outcome result retry_later = true
fits_outcome result not_applicable = is_no_action result.action && not (result.reason == "")
fits_outcome result unknown_outcome = false

-- `none` is an error that wraps `errControllerInvalidResult`.
unfoldable pub validate_dispatch_result : DispatchResult → Option DispatchResult
validate_dispatch_result result =
    if not (fits_outcome result result.outcome)
    then none
    else if not (result.reason == "") && safe_reason_code result.reason == ""
    then none
    else some result

abbrev pub is_dispatched : DispatchOutcome → Bool
is_dispatched dispatched = true
is_dispatched _ = false

-- `for_goal_block` is `kind == jobGoalBlock`.
unfoldable pub validate_dispatch_result_for_job : Bool → DispatchResult → Option DispatchResult
validate_dispatch_result_for_job for_goal_block result = elim (validate_dispatch_result result) [
  | none ↦ none
  | some validated ↦
      if not (is_dispatched validated.outcome)
      then some validated
      else if for_goal_block && not (is_goal_block validated.action)
      then none
      else if not for_goal_block && is_goal_block validated.action
      then none
      else some validated
]

unfoldable pub error_reason : ControllerError → String
error_reason (controller_reason reason) =
    let safe = safe_reason_code reason in if safe == "" then "controller_unavailable" else safe
error_reason controller_timeout = "controller_timeout"
error_reason port_reserved = "shared_app_server_port_reserved"
error_reason port_conflict = "shared_app_server_port_conflict"
error_reason ownership_unknown = "shared_app_server_ownership_unknown"
error_reason migration_deferred = "shared_app_server_migration_deferred"
error_reason environment_conflict = "shared_app_server_environment_conflict"
error_reason config_invalid = "shared_app_server_config_invalid"
error_reason server_unavailable = "codex_background_channel_unavailable"
error_reason app_server_request = "codex_background_dispatch_failed"
error_reason invalid_result = "controller_invalid_result"
error_reason restart_required = "codex_restart_required"
error_reason server_disabled = "shared_app_server_disabled"
error_reason settings_unavailable = "thread_settings_unavailable"
error_reason other_error = "controller_unavailable"

abbrev pub reason_without_result : Option ControllerError → String
reason_without_result none = "controller_unavailable"
reason_without_result (some error) = error_reason error

abbrev pub is_deferral : DispatchOutcome → Bool
is_deferral retry_later = true
is_deferral user_active = true
is_deferral _ = false

unfoldable pub controller_failure_reason : DispatchResult → Option ControllerError → String
controller_failure_reason result error =
    if is_deferral result.outcome && not (safe_reason_code result.reason == "")
    then safe_reason_code result.reason
    else reason_without_result error
