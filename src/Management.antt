-- ===== src/Management.antt =====
-- The settings of scripts/source/management.go and the update of the configuration file in config_lock.go.
-- The file is there; whether each write of it succeeds is an argument, and a write that fails leaves the
-- file as it was (jsonio.go replaces it atomically).
pub mod Settings
pub mod Queue
pub mod Panel
use codex_auto_retry.Prelude.{
  ℕ, String, Bool, true, false, not, ◌&&◌, ◌||◌, Option, none, some, ltb, eqb, ◌==◌, is_some,
  if◌then◌else◌,
}
use codex_auto_retry.Config.{Config, validate}
use codex_auto_retry.Config.File.{ConfigFile, saved}
use codex_auto_retry.Config.Load.{ConfigResult, invalid, usable, load_config}

-- A `MemoryLimitMB` or a `DelayIncrementSeconds` of 0 is one that is not given.
pub record RetrySettings : Type 0 where
  pub retry_prompt : String
  pub max_consecutive_retries : ℕ
  pub max_recovery_attempts : ℕ
  pub auth_max_attempts : Option ℕ
  pub initial_delay_seconds : ℕ
  pub max_delay_seconds : ℕ
  pub delay_increment_seconds : ℕ
  pub delay_strategy : String
  pub show_notifications : Bool
  pub memory_limit_mb : ℕ

abbrev pub given : Option ℕ → ℕ → ℕ
given none current = current
given (some n) current = n

unfoldable pub apply_retry_settings : RetrySettings → Config → Config
apply_retry_settings settings config = record config {
  retry_prompt = settings.retry_prompt;
  max_consecutive_retries = settings.max_consecutive_retries;
  max_recovery_attempts = settings.max_recovery_attempts;
  auth_max_attempts = given settings.auth_max_attempts config.auth_max_attempts;
  initial_delay_seconds = settings.initial_delay_seconds;
  max_delay_seconds = settings.max_delay_seconds;
  delay_increment_seconds =
      if not (eqb settings.delay_increment_seconds 0) || settings.delay_strategy == "linear"
      then settings.delay_increment_seconds
      else config.delay_increment_seconds;
  delay_strategy = settings.delay_strategy;
  show_notifications = settings.show_notifications;
  memory_limit_mb =
      if ltb 0 settings.memory_limit_mb then settings.memory_limit_mb else config.memory_limit_mb;
}

-- `loadOrCreateConfig`: the file afterwards, and the configuration or `none` for an error.
unfoldable pub load_or_create_config : Bool → ConfigFile → ConfigFile × Option Config
load_or_create_config migration_written file = elim (load_config file) [
  | invalid error ↦ (file, none)
  | usable config changed ↦
      if not changed
      then (file, some config)
      else if migration_written
      then (saved config, some config)
      else (file, none)
]

-- Which writes of an update succeed.
pub record Writes : Type 0 where
  pub migration : Bool
  pub update : Bool

abbrev pub write_update : Bool → ConfigFile → Config → ConfigFile × Option Config
write_update written file config =
    if is_some (validate config) || not written then (file, none) else (saved config, some config)

abbrev pub update_loaded :
    Bool → (Config → Config) → ConfigFile × Option Config → ConfigFile × Option Config
update_loaded written mutate (file, none) = (file, none)
update_loaded written mutate (file, some config) = write_update written file (mutate config)

-- `updateConfigFile`
unfoldable pub update_config_file :
    Writes → (Config → Config) → ConfigFile → ConfigFile × Option Config
update_config_file writes mutate file =
    update_loaded writes.update mutate (load_or_create_config writes.migration file)

-- The two files that the panel writes.
pub record Store : Type 0 where
  pub file : ConfigFile
  pub paused : Bool

-- `not_restored`: neither the pause state nor the old settings could be written.
pub data SaveResult : Type 0 where
  done failed not_restored : SaveResult

pub record SaveWrites : Type 0 where
  pub first_migration : Bool
  pub settings : Writes
  pub control : Bool
  pub rollback : Writes

abbrev pub restored : Option Config → SaveResult
restored none = not_restored
restored (some config) = failed

-- From `saveControlState` on.
unfoldable pub save_control :
    SaveWrites → Config → Bool → Store → ConfigFile × Option Config → Store × SaveResult
save_control writes original paused store (file, none) = (record store { file = file }, failed)
save_control writes original paused store (file, some config) =
    let (old_file, rollback) = update_config_file writes.rollback (λ c. original) file in
    if writes.control
    then (record { file = file; paused = paused }, done)
    else (record store { file = old_file }, restored rollback)

unfoldable pub save_loaded :
    SaveWrites → RetrySettings → Bool → Store → ConfigFile × Option Config → Store × SaveResult
save_loaded writes settings paused store (file, none) = (record store { file = file }, failed)
save_loaded writes settings paused store (file, some original) =
    save_control writes original paused store
      (update_config_file writes.settings (λ c. apply_retry_settings settings c) file)

-- `setLocalSettings`
unfoldable pub set_local_settings : SaveWrites → RetrySettings → Bool → Store → Store × SaveResult
set_local_settings writes settings paused store =
    save_loaded writes settings paused store
      (load_or_create_config writes.first_migration store.file)
