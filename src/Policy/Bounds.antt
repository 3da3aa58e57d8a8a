-- ===== src/Policy/Bounds.antt =====
-- The limits of retry_state.go stay between 1 and the configured ones.
use codex_auto_retry.Prelude.{◌≤◌, arith}
use codex_auto_retry.Model.{RetryDecision}
use codex_auto_retry.Config.{Config}
use codex_auto_retry.Config.Bounds.{IsValid}
use codex_auto_retry.Policy.{retry_limits_for_decision}

-- Whatever the decision, its limits do not exceed the configured ones.
pub retry_limits_for_decision-le :
    (d : RetryDecision) (config : Config)
    → let (recovery, consecutive) = retry_limits_for_decision d config in
      (recovery ≤ config.max_recovery_attempts) × (consecutive ≤ config.max_consecutive_retries)
unfolding retry_limits_for_decision
retry_limits_for_decision-le d config = ground arith

-- Under a valid configuration, the limits that a decision gets are at least 1.
pub retry_limits_for_decision_pos :
    (d : RetryDecision) (config : Config)
    → IsValid config
    → let (recovery, consecutive) = retry_limits_for_decision d config in
      (1 ≤ recovery) × (1 ≤ consecutive)
unfolding retry_limits_for_decision
retry_limits_for_decision_pos d config v = ground arith
