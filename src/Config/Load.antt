-- ===== src/Config/Load.antt =====
-- `loadOrCreateConfigUnlocked` of scripts/source/config.go: the configuration that a file gives, with the
-- migration of files of older versions.
use codex_auto_retry.Prelude.{
  ℕ, String, Bool, not, ◌&&◌, ◌||◌, Option, none, some, ltb, leb, eqb, ◌==◌, if◌then◌else◌,
}
use codex_auto_retry.Config.File.{Setting, or_default, is_absent, ConfigFile, decode_config}
use codex_auto_retry.Config.{
  Config, ConfigError, current_config_version, default_config, default_retry_prompt,
  default_shared_app_server_port, validate,
}

abbrev pub legacy_default_shared_app_server_port : ℕ
legacy_default_shared_app_server_port = 49321

abbrev pub legacy_retry_prompt : String
legacy_retry_prompt =
    "Continue the interrupted task from its current state. The previous turn ended because the model provider was temporarily unavailable. First inspect the existing conversation and workspace state, do not repeat completed side effects, then continue toward the user's latest request. Do not discuss the retry mechanism unless it affects the result."

unfoldable pub is_outdated : ConfigFile → Bool
is_outdated file =
    let version = or_default file.config_version default_config.config_version in
    is_absent file.config_version || (leb 1 version && ltb version current_config_version)

unfoldable pub set_version : ConfigFile → Config → Config
set_version file config =
    if is_absent file.config_version
    then record config {
      config_version = current_config_version;
      max_parallel_retries = default_config.max_parallel_retries;
    }
    else if leb 1 config.config_version && ltb config.config_version current_config_version
    then record config { config_version = current_config_version }
    else config

-- Whether a field that the current version has is missing.
unfoldable pub misses_field : ConfigFile → Bool
misses_field file =
    is_absent file.shared_app_server_requested
    || is_absent file.max_consecutive_retries
    || is_absent file.max_recovery_attempts
    || is_absent file.delay_strategy
    || is_absent file.delay_increment_seconds
    || is_absent file.shared_app_server_port
    || is_absent file.controller_failure_limit
    || is_absent file.shared_app_server_enabled
    || is_absent file.memory_limit_mb
    || is_absent file.shared_app_server_memory_limit_mb

abbrev pub if_absent {ℓ κ} : {A : Type ℓ} → {B : Type κ} → Setting A → B → B → B
if_absent setting b current = if is_absent setting then b else current

unfoldable pub fill_missing : ConfigFile → Config → Config
fill_missing file config =
    if not (eqb config.config_version current_config_version) then config else record config {
      shared_app_server_requested =
          if_absent file.shared_app_server_requested config.shared_app_server_enabled
            config.shared_app_server_requested;
      max_consecutive_retries =
          if_absent file.max_consecutive_retries default_config.max_consecutive_retries
            config.max_consecutive_retries;
      max_recovery_attempts =
          if_absent file.max_recovery_attempts
            (if ltb 0 file.legacy_limit
              then file.legacy_limit
              else default_config.max_recovery_attempts)
            config.max_recovery_attempts;
      delay_strategy = if_absent file.delay_strategy "exponential" config.delay_strategy;
      delay_increment_seconds =
          if_absent file.delay_increment_seconds default_config.delay_increment_seconds
            config.delay_increment_seconds;
      shared_app_server_port =
          if_absent file.shared_app_server_port default_config.shared_app_server_port
            config.shared_app_server_port;
      controller_failure_limit =
          if_absent file.controller_failure_limit default_config.controller_failure_limit
            config.controller_failure_limit;
      shared_app_server_enabled =
          if_absent file.shared_app_server_enabled default_config.shared_app_server_enabled
            config.shared_app_server_enabled;
      memory_limit_mb =
          if_absent file.memory_limit_mb default_config.memory_limit_mb config.memory_limit_mb;
      shared_app_server_memory_limit_mb =
          if_absent file.shared_app_server_memory_limit_mb
            default_config.shared_app_server_memory_limit_mb
            config.shared_app_server_memory_limit_mb;
    }

-- `sourceConfigVersion`
abbrev pub source_version : ConfigFile → ℕ
source_version file = or_default file.config_version 0

unfoldable pub has_legacy_port : ConfigFile → Config → Bool
has_legacy_port file config =
    ltb (source_version file) current_config_version
    && not config.shared_app_server_enabled
    && eqb config.shared_app_server_port legacy_default_shared_app_server_port

unfoldable pub has_legacy_prompt : Config → Bool
has_legacy_prompt config =
    config.retry_prompt == legacy_retry_prompt || config.retry_prompt == "Continue."

unfoldable pub move_port : ConfigFile → Config → Config
move_port file config =
    if has_legacy_port file config
    then record config { shared_app_server_port = default_shared_app_server_port }
    else config

unfoldable pub renew_prompt : Config → Config
renew_prompt config =
    if has_legacy_prompt config
    then record config { retry_prompt = default_retry_prompt }
    else config

-- The configuration, with whether the file is written again, or an error of `validate`.
pub data ConfigResult : Type 0 where
  invalid : ConfigError → ConfigResult
  usable : Config → Bool → ConfigResult

abbrev pub checked : Config → Bool → Option ConfigError → ConfigResult
checked config changed none = usable config changed
checked config changed (some error) = invalid error

unfoldable pub load_config : ConfigFile → ConfigResult
unfolding set_version fill_missing move_port renew_prompt
load_config file =
    let versioned = set_version file (decode_config file) in
    let filled = fill_missing file versioned in
    let moved = move_port file filled in
    let renewed = renew_prompt moved in
    checked renewed
      (is_outdated file
        || (eqb versioned.config_version current_config_version && misses_field file)
        || has_legacy_port file filled
        || has_legacy_prompt moved)
      (validate renewed)
