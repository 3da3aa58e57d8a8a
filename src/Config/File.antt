-- ===== src/Config/File.antt =====
-- The file of the configuration (scripts/source/config.go): its fields, how they are read and written. The
-- decoding of JSON is outside: each field of the file is a field of `ConfigFile`, named as in the record
-- `Config`.
use codex_auto_retry.Prelude.{ℕ, String, Bool, true, false, List, ◌==◌, if◌then◌else◌}
use codex_auto_retry.Config.{Config, default_config}

-- A field of the file: not there, `null`, which leaves the default, or a value.
pub data Setting {ℓ} (A : Type ℓ) : Type ℓ where
  absent null_value : Setting A
  value : A → Setting A

abbrev pub or_default {ℓ} : {A : Type ℓ} → Setting A → A → A
or_default absent a = a
or_default null_value a = a
or_default (value b) a = b

abbrev pub is_absent {ℓ} : {A : Type ℓ} → Setting A → Bool
is_absent absent = true
is_absent _ = false

-- `legacy_limit` is `max_retry_attempts`, 0 where it is not there or no number.
pub record ConfigFile : Type 0 where
  pub config_version : Setting ℕ
  pub poll_interval_seconds : Setting ℕ
  pub initial_delay_seconds : Setting ℕ
  pub max_delay_seconds : Setting ℕ
  pub delay_increment_seconds : Setting ℕ
  pub delay_strategy : Setting String
  pub max_consecutive_retries : Setting ℕ
  pub max_recovery_attempts : Setting ℕ
  pub max_parallel_retries : Setting ℕ
  pub start_ack_timeout_seconds : Setting ℕ
  pub auth_max_attempts : Setting ℕ
  pub unknown_max_attempts : Setting ℕ
  pub session_roots : Setting (List String)
  pub include_default_home : Setting Bool
  pub include_cockpit_homes : Setting Bool
  pub power_shell_executable : Setting String
  pub shared_app_server_port : Setting ℕ
  pub shared_app_server_enabled : Setting Bool
  pub shared_app_server_requested : Setting Bool
  pub controller_failure_limit : Setting ℕ
  pub memory_limit_mb : Setting ℕ
  pub shared_app_server_memory_limit_mb : Setting ℕ
  pub retry_prompt : Setting String
  pub show_notifications : Setting Bool
  pub legacy_limit : ℕ

-- `json.Unmarshal(data, &cfg)`, over the defaults.
unfoldable pub decode_config : ConfigFile → Config
decode_config file = record {
  config_version = or_default file.config_version default_config.config_version;
  poll_interval_seconds =
      or_default file.poll_interval_seconds default_config.poll_interval_seconds;
  initial_delay_seconds =
      or_default file.initial_delay_seconds default_config.initial_delay_seconds;
  max_delay_seconds = or_default file.max_delay_seconds default_config.max_delay_seconds;
  delay_increment_seconds =
      or_default file.delay_increment_seconds default_config.delay_increment_seconds;
  delay_strategy = or_default file.delay_strategy default_config.delay_strategy;
  max_consecutive_retries =
      or_default file.max_consecutive_retries default_config.max_consecutive_retries;
  max_recovery_attempts =
      or_default file.max_recovery_attempts default_config.max_recovery_attempts;
  max_parallel_retries = or_default file.max_parallel_retries default_config.max_parallel_retries;
  start_ack_timeout_seconds =
      or_default file.start_ack_timeout_seconds default_config.start_ack_timeout_seconds;
  auth_max_attempts = or_default file.auth_max_attempts default_config.auth_max_attempts;
  unknown_max_attempts = or_default file.unknown_max_attempts default_config.unknown_max_attempts;
  session_roots = or_default file.session_roots default_config.session_roots;
  include_default_home = or_default file.include_default_home default_config.include_default_home;
  include_cockpit_homes =
      or_default file.include_cockpit_homes default_config.include_cockpit_homes;
  power_shell_executable =
      or_default file.power_shell_executable default_config.power_shell_executable;
  shared_app_server_port =
      or_default file.shared_app_server_port default_config.shared_app_server_port;
  shared_app_server_enabled =
      or_default file.shared_app_server_enabled default_config.shared_app_server_enabled;
  shared_app_server_requested =
      or_default file.shared_app_server_requested default_config.shared_app_server_requested;
  controller_failure_limit =
      or_default file.controller_failure_limit default_config.controller_failure_limit;
  memory_limit_mb = or_default file.memory_limit_mb default_config.memory_limit_mb;
  shared_app_server_memory_limit_mb =
      or_default file.shared_app_server_memory_limit_mb
        default_config.shared_app_server_memory_limit_mb;
  retry_prompt = or_default file.retry_prompt default_config.retry_prompt;
  show_notifications = or_default file.show_notifications default_config.show_notifications;
}

-- A field with the tag `omitempty`.
unfoldable pub omit_empty : String → Setting String
omit_empty text = if text == "" then absent else value text

-- What `writeJSONAtomic` writes of a configuration.
unfoldable pub saved : Config → ConfigFile
unfolding omit_empty
saved config = record {
  config_version = value config.config_version;
  poll_interval_seconds = value config.poll_interval_seconds;
  initial_delay_seconds = value config.initial_delay_seconds;
  max_delay_seconds = value config.max_delay_seconds;
  delay_increment_seconds = value config.delay_increment_seconds;
  delay_strategy = value config.delay_strategy;
  max_consecutive_retries = value config.max_consecutive_retries;
  max_recovery_attempts = value config.max_recovery_attempts;
  max_parallel_retries = value config.max_parallel_retries;
  start_ack_timeout_seconds = value config.start_ack_timeout_seconds;
  auth_max_attempts = value config.auth_max_attempts;
  unknown_max_attempts = value config.unknown_max_attempts;
  session_roots = value config.session_roots;
  include_default_home = value config.include_default_home;
  include_cockpit_homes = value config.include_cockpit_homes;
  power_shell_executable = omit_empty config.power_shell_executable;
  shared_app_server_port = value config.shared_app_server_port;
  shared_app_server_enabled = value config.shared_app_server_enabled;
  shared_app_server_requested = value config.shared_app_server_requested;
  controller_failure_limit = value config.controller_failure_limit;
  memory_limit_mb = value config.memory_limit_mb;
  shared_app_server_memory_limit_mb = value config.shared_app_server_memory_limit_mb;
  retry_prompt = value config.retry_prompt;
  show_notifications = value config.show_notifications;
  legacy_limit = 0;
}
