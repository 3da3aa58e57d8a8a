-- ===== src/Policy.antt =====
-- The retry policy: how often and after which delay a failed turn is tried again. From
-- scripts/source/retry_state.go (limits, counters and stop reasons), runner.go (`retryDelay`) and
-- daemon.go (which controller failures need a person, or a fail-open).
pub mod Bounds
pub mod Delay
use codex_auto_retry.Prelude.{
  ℕ, zero, suc, ◌+◌, ◌-◌, ◌*◌, ◌/◌, String, Bool, true, false, not, ◌&&◌, ◌||◌, List, [], ◌∷◌, ltb,
  leb, eqb, ◌==◌, if◌then◌else◌, Duration, second, minute,
}
use codex_auto_retry.Model.{
  FailureClass, class_auth_limited, class_unknown, class_empty_response, RetryDecision,
}
use codex_auto_retry.Config.{Config}

abbrev pub max_automatic_recovery_duration : Duration
max_automatic_recovery_duration = 30 * minute

abbrev pub is_unknown : FailureClass → Bool
is_unknown class_unknown = true
is_unknown _ = false

abbrev pub is_auth_limited : FailureClass → Bool
is_auth_limited class_auth_limited = true
is_auth_limited _ = false

abbrev pub is_empty_response : FailureClass → Bool
is_empty_response class_empty_response = true
is_empty_response _ = false

-- `if limit > 0 && limit < current { current = limit }`
abbrev pub lower_to : ℕ → ℕ → ℕ
lower_to limit current = if ltb 0 limit && ltb limit current then limit else current

-- The recovery limit, and the limit on consecutive retries without progress.
unfoldable pub retry_limits_for_decision : RetryDecision → Config → ℕ × ℕ
retry_limits_for_decision d config = (
  lower_to d.max_attempts config.max_recovery_attempts,
  if ltb 0 d.max_consecutive
      then lower_to d.max_consecutive config.max_consecutive_retries
      else if ltb 0 d.max_attempts && not (is_unknown d.failure_class)
      then lower_to d.max_attempts config.max_consecutive_retries
      else config.max_consecutive_retries,
)

-- The ceiling of a class, as `retryLimits` puts it into a decision.
abbrev pub class_ceiling : FailureClass → Config → ℕ
class_ceiling class_auth_limited config = config.auth_max_attempts
class_ceiling class_unknown config = config.unknown_max_attempts
class_ceiling _ config = 0

unfoldable pub retry_limits : FailureClass → Config → ℕ × ℕ
unfolding retry_limits_for_decision
retry_limits c config =
    retry_limits_for_decision
      (record {
        retry = false;
        failure_class = c;
        max_attempts = class_ceiling c config;
        max_consecutive = 0;
        reason = "";
      })
      config

-- `completed` is clamped at 0, which subtraction on ℕ does.
unfoldable pub completed_retry_count : ℕ → ℕ
completed_retry_count next = next - 1

unfoldable pub retry_stop_reason : ℕ → ℕ → ℕ → ℕ → String
retry_stop_reason attempt limit consecutive consecutive_limit =
    if ltb limit attempt
    then "recovery_attempt_limit"
    else if ltb consecutive_limit consecutive
    then "consecutive_retry_limit"
    else "retry_limit"

unfoldable pub retry_stop_reason_for_class : FailureClass → Config → ℕ → ℕ → ℕ → ℕ → String
unfolding retry_stop_reason
retry_stop_reason_for_class c config attempt limit consecutive consecutive_limit =
    if is_auth_limited c
      && ((ltb limit attempt
            && ltb limit config.max_recovery_attempts
            && eqb limit config.auth_max_attempts)
          || (ltb consecutive_limit consecutive
              && ltb consecutive_limit config.max_consecutive_retries
              && eqb consecutive_limit config.auth_max_attempts))
    then "auth_attempt_limit"
    else retry_stop_reason attempt limit consecutive consecutive_limit

-- The loop of the linear strategy, `rounds` of it left.
unfoldable pub linear_delay : ℕ → Duration → Duration → Duration → Duration
linear_delay zero increment maximum delay = delay
linear_delay (suc rounds) increment maximum delay =
    let next = linear_delay rounds increment maximum (delay + increment) in
    if ltb delay maximum then (if leb (maximum - delay) increment then maximum else next) else delay

-- The loop of the exponential strategy.
unfoldable pub exponential_delay : ℕ → Duration → Duration → Duration
exponential_delay zero maximum delay = delay
exponential_delay (suc rounds) maximum delay =
    let next = exponential_delay rounds maximum (delay * 2) in
    if leb (maximum / 2) delay then maximum else next

-- A retry number below 1 counts as 1, so there are `n - 1` rounds.
unfoldable pub retry_delay : ℕ → Config → Duration
unfolding linear_delay exponential_delay
retry_delay n config =
    let delay = config.initial_delay_seconds * second in
    let maximum = config.max_delay_seconds * second in
    let exponential = exponential_delay (n - 1) maximum delay in
    if config.delay_strategy == "fixed"
    then delay
    else if config.delay_strategy == "linear"
    then linear_delay (n - 1) (config.delay_increment_seconds * second) maximum delay
    else if ltb maximum exponential
    then maximum
    else exponential

-- `switch reason { case ...: }`
unfoldable pub one_of : String → List String → Bool
one_of s [] = false
one_of s (t ∷ ts) = s == t || one_of s ts

unfoldable pub controller_failure_needs_action : String → Bool
unfolding one_of
controller_failure_needs_action reason = one_of reason (
    "codex_not_running" ∷ "codex_restart_required" ∷ "codex_home_not_shared"
    ∷ "shared_app_server_port_reserved" ∷ "shared_app_server_port_conflict"
    ∷ "shared_app_server_environment_conflict" ∷ "shared_app_server_ownership_unknown"
    ∷ "shared_app_server_disabled" ∷ "shared_app_server_config_invalid"
    ∷ "shared_app_server_migration_deferred" ∷ "codex_ipc_goal_control_unsupported" ∷ [])

unfoldable pub controller_failure_needs_fail_open : String → Bool
unfolding one_of
controller_failure_needs_fail_open reason = one_of reason (
    "shared_app_server_port_reserved" ∷ "shared_app_server_port_conflict"
    ∷ "shared_app_server_environment_conflict" ∷ "shared_app_server_ownership_unknown"
    ∷ "shared_app_server_config_invalid" ∷ "codex_background_channel_unavailable"
    ∷ "codex_background_dispatch_failed" ∷ "controller_timeout" ∷ "controller_invalid_result"
    ∷ "controller_unavailable" ∷ [])
