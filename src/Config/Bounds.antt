-- ===== src/Config/Bounds.antt =====
-- What `Config.validate` (scripts/source/config.go) guarantees of a configuration that it accepts.
use codex_auto_retry.Prelude.{◌≤◌, ◌≡◌, refl, none, arith, ◌==◌, false}
use codex_auto_retry.Config.{Config, validate, default_config}

pub record IsValid (c : Config) : Type 0 where
  pub recovery : (1 ≤ c.max_recovery_attempts) × (c.max_recovery_attempts ≤ 1000)
  pub consecutive : (1 ≤ c.max_consecutive_retries) × (c.max_consecutive_retries ≤ 100)
  pub auth : (1 ≤ c.auth_max_attempts) × (c.auth_max_attempts ≤ 1000)
  pub unknown : 1 ≤ c.unknown_max_attempts
  pub parallel : (1 ≤ c.max_parallel_retries) × (c.max_parallel_retries ≤ 16)
  pub initial : (1 ≤ c.initial_delay_seconds) × (c.initial_delay_seconds ≤ 3600)
  pub increment : (1 ≤ c.delay_increment_seconds) × (c.delay_increment_seconds ≤ 3600)
  pub maximum : (1 ≤ c.max_delay_seconds) × (c.max_delay_seconds ≤ 86400)
  pub ordered :
      (c.delay_strategy == "fixed") ≡ false → c.initial_delay_seconds ≤ c.max_delay_seconds
  pub failures : (1 ≤ c.controller_failure_limit) × (c.controller_failure_limit ≤ 20)
  pub acknowledge : (10 ≤ c.start_ack_timeout_seconds) × (c.start_ack_timeout_seconds ≤ 300)

-- An accepted configuration has every limit and delay in its range, and an increasing delay starts at
-- or below its maximum.
pub validate-IsValid : (c : Config) → validate c ≡ none → IsValid c
unfolding validate
validate-IsValid c h = ground arith

pub default_config_accepted : validate default_config ≡ none
unfolding validate default_config
default_config_accepted = refl
