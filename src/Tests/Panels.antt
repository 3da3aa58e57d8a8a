-- ===== src/Tests/Panels.antt =====
-- The theorems on the configuration file, the panel and the merge of stored states, each at a concrete
-- input.
use codex_auto_retry.Prelude.{◌≡◌, refl, arith, true, false, none}
use codex_auto_retry.Config.{default_config}
use codex_auto_retry.Config.Bounds.{IsValid, default_config_accepted}
use codex_auto_retry.Config.File.{saved}
use codex_auto_retry.Config.Load.{load_config, usable, has_legacy_prompt}
use codex_auto_retry.Config.Loaded.{reloaded, load_config-saved}
use codex_auto_retry.Management.{
  RetrySettings, SaveWrites, Store, apply_retry_settings, set_local_settings,
}
use codex_auto_retry.Management.Settings.{Means, Outcome, set_local_settings-Outcome}
use codex_auto_retry.Management.Queue.{stopped_retry_is_visible}
use codex_auto_retry.Tests.Data.{now, stopped}

default_prompt_kept : has_legacy_prompt default_config ≡ false
unfolding has_legacy_prompt default_config
default_prompt_kept = refl

default_reloaded : load_config (saved default_config) ≡ usable default_config false
default_reloaded = reloaded default_config default_config_accepted default_prompt_kept

load_config-saved_example :
    IsValid default_config × (load_config (saved default_config) ≡ usable default_config false)
load_config-saved_example =
    load_config-saved (saved default_config) default_config false default_reloaded

abbrev settings : RetrySettings
settings = record {
  retry_prompt = "Go on.";
  max_consecutive_retries = 3;
  max_recovery_attempts = 9;
  auth_max_attempts = none;
  initial_delay_seconds = 5;
  max_delay_seconds = 60;
  delay_increment_seconds = 0;
  delay_strategy = "exponential";
  show_notifications = true;
  memory_limit_mb = 0;
}

-- The pause state cannot be written, and the settings are restored.
abbrev writes : SaveWrites
writes = record {
  first_migration = true;
  settings = record { migration = true; update = true };
  control = false;
  rollback = record { migration = true; update = true };
}

abbrev store : Store
store = record { file = saved default_config; paused = false }

store-Means : Means store.file default_config
store-Means = rw default_reloaded refl

new_prompt_kept : has_legacy_prompt (apply_retry_settings settings default_config) ≡ false
unfolding has_legacy_prompt apply_retry_settings
new_prompt_kept = refl

set_local_settings-Outcome_example :
    Outcome default_config
      (apply_retry_settings settings default_config)
      false
      true
      (set_local_settings writes settings true store)
set_local_settings-Outcome_example =
    set_local_settings-Outcome writes settings true store default_config store-Means new_prompt_kept

stopped_visible : stopped_retry_is_visible now stopped ≡ true
unfolding stopped_retry_is_visible
stopped_visible = ground arith
