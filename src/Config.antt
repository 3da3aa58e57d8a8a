-- ===== src/Config.antt =====
-- scripts/source/config.go: the configuration, its default and the checks that every loaded or
-- updated configuration has passed. The tests treat a negative number as they treat 0, so the
-- integer fields are natural numbers.
pub mod Bounds
pub mod File
pub mod Load
pub mod Loaded
use codex_auto_retry.Prelude.{
  ℕ, String, Bool, true, false, not, ◌&&◌, ◌||◌, List, [], Option, none, some, ltb, eqb, ◌==◌,
  length, if◌then◌else◌,
}
use codex_auto_retry.Text.{codes, is_blank}

pub record Config : Type 0 where
  pub config_version : ℕ
  pub poll_interval_seconds : ℕ
  pub initial_delay_seconds : ℕ
  pub max_delay_seconds : ℕ
  pub delay_increment_seconds : ℕ
  pub delay_strategy : String
  pub max_consecutive_retries : ℕ
  pub max_recovery_attempts : ℕ
  pub max_parallel_retries : ℕ
  pub start_ack_timeout_seconds : ℕ
  pub auth_max_attempts : ℕ
  pub unknown_max_attempts : ℕ
  pub session_roots : List String
  pub include_default_home : Bool
  pub include_cockpit_homes : Bool
  pub power_shell_executable : String
  pub shared_app_server_port : ℕ
  pub shared_app_server_enabled : Bool
  pub shared_app_server_requested : Bool
  pub controller_failure_limit : ℕ
  pub memory_limit_mb : ℕ
  pub shared_app_server_memory_limit_mb : ℕ
  pub retry_prompt : String
  pub show_notifications : Bool

abbrev pub current_config_version : ℕ
current_config_version = 11

abbrev pub default_shared_app_server_port : ℕ
default_shared_app_server_port = 49621

abbrev pub max_consecutive_retries_limit : ℕ
max_consecutive_retries_limit = 100

abbrev pub max_recovery_attempts_limit : ℕ
max_recovery_attempts_limit = 1000

abbrev pub max_retry_prompt_runes : ℕ
max_retry_prompt_runes = 500

abbrev pub default_retry_prompt : String
default_retry_prompt = "继续"

unfoldable pub default_config : Config
default_config = record {
  config_version = current_config_version;
  poll_interval_seconds = 2;
  initial_delay_seconds = 5;
  max_delay_seconds = 300;
  delay_increment_seconds = 2;
  delay_strategy = "exponential";
  max_consecutive_retries = 5;
  max_recovery_attempts = 15;
  max_parallel_retries = 4;
  start_ack_timeout_seconds = 30;
  auth_max_attempts = 6;
  unknown_max_attempts = 3;
  session_roots = [];
  include_default_home = true;
  include_cockpit_homes = true;
  power_shell_executable = "";
  shared_app_server_port = default_shared_app_server_port;
  shared_app_server_enabled = false;
  shared_app_server_requested = false;
  controller_failure_limit = 3;
  memory_limit_mb = 1024;
  shared_app_server_memory_limit_mb = 4096;
  retry_prompt = default_retry_prompt;
  show_notifications = true;
}

-- One constructor for each message of `validate`.
pub data ConfigError : Type 0 where
  bad_version bad_poll_interval bad_initial_delay bad_delay_increment bad_delay_strategy :
      ConfigError
  bad_max_delay bad_max_consecutive bad_max_recovery bad_max_parallel bad_start_ack : ConfigError
  bad_auth_or_unknown empty_retry_prompt long_retry_prompt bad_port : ConfigError
  bad_controller_failure_limit bad_memory_limit bad_shared_memory_limit : ConfigError

abbrev outside : ℕ → ℕ → ℕ → Bool
outside lo hi n = ltb n lo || ltb hi n

-- `none` is a configuration without an error.
unfoldable pub validate : Config → Option ConfigError
unfolding is_blank
validate c =
    if not (eqb c.config_version current_config_version)
    then some bad_version
    else if outside 1 60 c.poll_interval_seconds
    then some bad_poll_interval
    else if outside 1 3600 c.initial_delay_seconds
    then some bad_initial_delay
    else if outside 1 3600 c.delay_increment_seconds
    then some bad_delay_increment
    else if not (c.delay_strategy == "exponential")
        && not (c.delay_strategy == "linear")
        && not (c.delay_strategy == "fixed")
    then some bad_delay_strategy
    else if outside 1 86400 c.max_delay_seconds
        || (not (c.delay_strategy == "fixed") && ltb c.max_delay_seconds c.initial_delay_seconds)
    then some bad_max_delay
    else if outside 1 max_consecutive_retries_limit c.max_consecutive_retries
    then some bad_max_consecutive
    else if outside 1 max_recovery_attempts_limit c.max_recovery_attempts
    then some bad_max_recovery
    else if outside 1 16 c.max_parallel_retries
    then some bad_max_parallel
    else if outside 10 300 c.start_ack_timeout_seconds
    then some bad_start_ack
    else if outside 1 max_recovery_attempts_limit c.auth_max_attempts
        || ltb c.unknown_max_attempts 1
    then some bad_auth_or_unknown
    else if is_blank c.retry_prompt
    then some empty_retry_prompt
    else if ltb max_retry_prompt_runes (length (codes c.retry_prompt))
    then some long_retry_prompt
    else if outside 1024 65535 c.shared_app_server_port
    then some bad_port
    else if outside 1 20 c.controller_failure_limit
    then some bad_controller_failure_limit
    else if outside 128 65536 c.memory_limit_mb
    then some bad_memory_limit
    else if outside 512 65536 c.shared_app_server_memory_limit_mb
    then some bad_shared_memory_limit
    else none
