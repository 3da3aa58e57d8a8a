-- ===== src/Classifier.antt =====
-- scripts/source/classifier.go: what kind of failure a turn ended with, and whether it is retried.
-- `decode` is `json.Unmarshal` into an `any`, which the model takes as a parameter.
pub mod Status
pub mod CcSwitch
pub mod Laws
use codex_auto_retry.Prelude.{
  ℕ, String, Bool, true, false, not, ◌&&◌, ◌||◌, List, [], ◌∷◌, Option, leb, eqb, if◌then◌else◌,
}
use codex_auto_retry.Text.{Text, codes, trim_space, is_empty, is_blank, to_lower, contains}
use codex_auto_retry.Model.{
  FailureClass, class_none, class_transient, class_rate_limit, class_server, class_auth_transient,
  class_auth_limited, class_empty_response, class_unknown, RetryDecision, RelevantEvent,
}
use codex_auto_retry.Config.{Config}
use Status.{extract_status}
use CcSwitch.{Json, is_cc_switch_upstream_failure}

unfoldable pub contains_any : Text → List String → Bool
unfolding contains
contains_any text [] = false
contains_any text (p ∷ ps) = contains text (codes p) || contains_any text ps

abbrev pub cancellations : List String
cancellations =
    "cancelled by user" ∷ "canceled by user" ∷ "user cancelled" ∷ "user canceled"
    ∷ "interrupted by user" ∷ "aborted by user" ∷ "turn aborted" ∷ "task was cancelled" ∷ []

abbrev pub permanent_errors : List String
permanent_errors =
    "context length" ∷ "maximum context" ∷ "prompt is too long" ∷ "input is too long"
    ∷ "invalid_request" ∷ "invalid request" ∷ "invalid payload" ∷ "malformed" ∷ "schema error"
    ∷ "model not found" ∷ "unknown model" ∷ "does not exist" ∷ "approval required"
    ∷ "permission denied" ∷ "policy violation" ∷ "content policy" ∷ "unsupported parameter" ∷ []

abbrev pub auth_outages : List String
auth_outages =
    "auth_unavailable" ∷ "auth unavailable" ∷ "no auth available"
    ∷ "no account is currently schedulable" ∷ "authentication service unavailable"
    ∷ "login service unavailable" ∷ "oauth service unavailable" ∷ "cooling down" ∷ "cooldown"
    ∷ "temporarily unavailable authentication" ∷ []

abbrev pub rate_limits : List String
rate_limits =
    "rate limit" ∷ "too many requests" ∷ "quota temporarily" ∷ "capacity" ∷ "overloaded"
    ∷ "try again later" ∷ []

abbrev pub network_failures : List String
network_failures =
    "connection reset" ∷ "connection refused" ∷ "connection closed" ∷ "connection error"
    ∷ "failed to connect" ∷ "could not connect" ∷ "network error" ∷ "network is unreachable"
    ∷ "dns error" ∷ "name resolution" ∷ "timed out" ∷ "timeout" ∷ "deadline exceeded"
    ∷ "error sending request" ∷ "request failed" ∷ "transport error" ∷ "broken pipe"
    ∷ "stream disconnected" ∷ "stream closed" ∷ "stream ended" ∷ "incomplete stream" ∷ "websocket"
    ∷ "tls handshake" ∷ "service unavailable" ∷ "bad gateway" ∷ "gateway timeout" ∷ []

abbrev pub auth_failures : List String
auth_failures =
    "unauthorized" ∷ "not authenticated" ∷ "authentication required" ∷ "login required"
    ∷ "please log in" ∷ "token expired" ∷ "token refresh" ∷ "invalid api key" ∷ "incorrect api key"
    ∷ "credential" ∷ "access denied" ∷ "forbidden" ∷ []

abbrev pub refused : String → RetryDecision
refused reason = record {
  retry = false;
  failure_class = class_none;
  max_attempts = 0;
  max_consecutive = 0;
  reason = reason;
}

-- A retry under the class's own ceiling; 0 is no ceiling.
abbrev pub retried : FailureClass → ℕ → String → RetryDecision
retried c ceiling reason = record {
  retry = true;
  failure_class = c;
  max_attempts = ceiling;
  max_consecutive = 0;
  reason = reason;
}

abbrev is_permanent_status : ℕ → Bool
is_permanent_status status =
    eqb status 400
    || eqb status 404
    || eqb status 405
    || eqb status 409
    || eqb status 410
    || eqb status 413
    || eqb status 415
    || eqb status 422

-- The tests after those on the status code.
unfoldable pub classify_by_words : Text → ℕ → Config → RetryDecision
classify_by_words text status config =
    if contains_any text auth_outages
    then retried class_auth_transient 0 "temporary authentication service failure"
    else if contains_any text rate_limits
    then retried class_rate_limit 0 "provider capacity or rate limit"
    else if contains_any text network_failures
    then retried class_transient 0 "network or stream failure"
    else if eqb status 401 || eqb status 403 || contains_any text auth_failures
    then retried class_auth_limited config.auth_max_attempts
        "authentication may require user action"
    else retried class_unknown config.unknown_max_attempts "unknown provider failure"

unfoldable pub classify_by_status : Text → ℕ → Config → RetryDecision
classify_by_status text status config =
    if eqb status 408 || eqb status 425
    then retried class_transient 0 "temporary HTTP status"
    else if eqb status 429
    then retried class_rate_limit 0 "rate limited"
    else if leb 500 status && leb status 599
    then retried class_server 0 "provider server error"
    else if is_permanent_status status
    then refused "non-retryable HTTP status"
    else classify_by_words text status config

module _ (decode : Text → Option Json) where
  unfoldable pub classify_text : Text → Config → RetryDecision
  classify_text text config =
      if is_empty text
      then refused "empty error"
      else if contains_any text cancellations
      then refused "user cancellation"
      else if is_cc_switch_upstream_failure decode text
      then retried class_transient 0 "CC Switch upstream request failed"
      else if contains_any text permanent_errors
      then refused "permanent request or policy error"
      else classify_by_status text (extract_status text) config

  unfoldable pub classify_failure : String → Config → RetryDecision
  classify_failure error_text config =
      classify_text (to_lower (trim_space (codes error_text))) config

  unfoldable pub classify_completion_failure : RelevantEvent → Config → RetryDecision
  classify_completion_failure event config =
      if not (is_blank event.error_text)
      then classify_failure event.error_text config
      else if event.final_known && not event.final_present
      then retried class_empty_response 0 "provider completed without a final response"
      else refused "successful completion"

unfoldable pub completion_succeeded : RelevantEvent → Bool
completion_succeeded event =
    is_blank event.error_text && (not event.final_known || event.final_present)
