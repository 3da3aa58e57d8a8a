-- ===== src/Config/Loaded.antt =====
-- What loading a configuration (scripts/source/config.go) guarantees.
use codex_auto_retry.Prelude.{
  ◌≡◌, refl, sym, eq_iff, String, Bool, false, Option, none, some, arith, inl, inr, Bool-cases,
  ◌==◌,
}
use codex_auto_retry.Config.{
  Config, ConfigError, current_config_version, validate, default_config, default_retry_prompt,
}
use codex_auto_retry.Config.Bounds.{IsValid, validate-IsValid}
use codex_auto_retry.Config.File.{ConfigFile, decode_config, or_default, omit_empty, saved}
use codex_auto_retry.Config.Load.{
  usable, checked, set_version, fill_missing, move_port, renew_prompt, has_legacy_prompt,
  has_legacy_port, is_outdated, misses_field, load_config,
}

checked-usable :
    (config c : Config) (changed flag : Bool) (error : Option ConfigError)
    → checked config changed error ≡ usable c flag
    → (config ≡ c) × (error ≡ none)
checked-usable config c changed flag none h = (cc, refl)
checked-usable config c changed flag (some error) h = absurd (cc)

default-prompt :
    (config : Config)
    → has_legacy_prompt (record config { retry_prompt = default_retry_prompt }) ≡ false
unfolding has_legacy_prompt
default-prompt config = refl

renewed-prompt : (config : Config) → has_legacy_prompt (renew_prompt config) ≡ false
unfolding renew_prompt
renewed-prompt config = elim (Bool-cases (has_legacy_prompt config)) [
  | inl e ↦ rw e (default-prompt config)
  | inr e ↦ rw (e, e) refl
]

validate-version : (c : Config) → validate c ≡ none → c.config_version ≡ current_config_version
unfolding validate
validate-version c h = ground (arith, h)

or_default-omit_empty : (text : String) → or_default (omit_empty text) "" ≡ text
unfolding omit_empty
or_default-omit_empty text = elim (Bool-cases (text == "")) [
  | inl e ↦ rw e (sym ((eq_iff text "").0 e))
  | inr e ↦ rw e refl
]

-- A configuration that is written as it is loaded goes through every step unchanged.
module _ (c : Config) (current : c.config_version ≡ current_config_version) where
  set_version-saved : set_version (saved c) (decode_config (saved c)) ≡ c
  unfolding set_version decode_config saved default_config
  set_version-saved = rw (current, or_default-omit_empty c.power_shell_executable) refl

  fill_missing-saved : fill_missing (saved c) c ≡ c
  unfolding fill_missing saved
  fill_missing-saved = rw current refl

  has_legacy_port-saved : has_legacy_port (saved c) c ≡ false
  unfolding has_legacy_port saved
  has_legacy_port-saved = rw current refl

  is_outdated-saved : is_outdated (saved c) ≡ false
  unfolding is_outdated saved
  is_outdated-saved = rw current refl

misses_field-saved : (c : Config) → misses_field (saved c) ≡ false
unfolding misses_field saved
misses_field-saved c = refl

pub reloaded :
    (c : Config)
    → validate c ≡ none
    → has_legacy_prompt c ≡ false
    → load_config (saved c) ≡ usable c false
unfolding load_config move_port renew_prompt
reloaded c accepted prompt =
    let current = validate-version c accepted in
    rw
      (
        set_version-saved c current,
        fill_missing-saved c current,
        has_legacy_port-saved c current,
        is_outdated-saved c current,
        misses_field-saved c,
        prompt,
        accepted,
        current,
      )
      refl

pub load_config-accepted :
    (file : ConfigFile) (c : Config) (changed : Bool)
    → load_config file ≡ usable c changed
    → (validate c ≡ none) × (has_legacy_prompt c ≡ false)
unfolding load_config
load_config-accepted file c changed h =
    let moved = move_port file (fill_missing file (set_version file (decode_config file))) in
    let (same, accepted) = checked-usable (renew_prompt moved) c _ changed _ h in
    (rw same at accepted, rw same at (renewed-prompt moved))

-- A configuration that is loaded, from a file of whatever version, is valid, and the file that is then
-- written gives the same configuration when it is loaded again, and is not written a second time.
pub load_config-saved :
    (file : ConfigFile) (c : Config) (changed : Bool)
    → load_config file ≡ usable c changed
    → IsValid c × (load_config (saved c) ≡ usable c false)
load_config-saved file c changed h =
    let (accepted, prompt) = load_config-accepted file c changed h in
    (validate-IsValid c accepted, reloaded c accepted prompt)
