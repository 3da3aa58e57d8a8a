-- ===== src/Management/Settings.antt =====
-- Settings are saved as a whole or not at all (`setLocalSettings` of scripts/source/management.go).
use codex_auto_retry.Prelude.{
  ◌≡◌, refl, Bool, true, false, not, Option, none, some, inl, inr, Option-cases, ◌⊎◌, if◌then◌else◌,
}
use codex_auto_retry.Config.{Config, validate}
use codex_auto_retry.Config.File.{ConfigFile, saved}
use codex_auto_retry.Config.Load.{ConfigResult, invalid, usable, load_config, has_legacy_prompt}
use codex_auto_retry.Config.Loaded.{reloaded, load_config-accepted}
use codex_auto_retry.Management.{
  RetrySettings, apply_retry_settings, load_or_create_config, Writes, write_update, update_loaded,
  update_config_file, Store, SaveResult, done, failed, not_restored, SaveWrites, restored,
  save_control, save_loaded, set_local_settings,
}

-- What the file means, whether or not it is of an older version.
abbrev pub config_of : ConfigResult → Option Config
config_of (invalid error) = none
config_of (usable config changed) = some config

abbrev pub Means : ConfigFile → Config → Type 0
Means file config = config_of (load_config file) ≡ some config

-- What a step leaves: the same meaning, or an error with it.
record Steps (before after : Config) (r : ConfigFile × Option Config) : Type 0 where
  meaning : ((r.1 ≡ none) × Means r.0 before) ⊎ ((r.1 ≡ some after) × Means r.0 after)

usable-config_of :
    (r : ConfigResult) (c : Config)
    → config_of r ≡ some c
    → (changed : Bool) × (r ≡ usable c changed)
usable-config_of (invalid error) c h = absurd (cc)
usable-config_of (usable d changed) c h = let same : d ≡ c = cc in (changed, rw same refl)

saved-Means : (c : Config) → validate c ≡ none → has_legacy_prompt c ≡ false → Means (saved c) c
saved-Means c accepted prompt = rw (reloaded c accepted prompt) refl

Means-accepted :
    (file : ConfigFile) (c : Config)
    → Means file c
    → (validate c ≡ none) × (has_legacy_prompt c ≡ false)
Means-accepted file c m =
    let (changed, e) = usable-config_of (load_config file) c m in
    load_config-accepted file c changed e

migrated-Steps :
    (changed written : Bool) (file : ConfigFile) (c : Config)
    → Means file c
    → Means (saved c) c
    → Steps c c (
        if not changed then (file, some c) else if written then (saved c, some c) else (file, none))
migrated-Steps false written file c m n = record { meaning = inr (refl, m) }
migrated-Steps true true file c m n = record { meaning = inr (refl, n) }
migrated-Steps true false file c m n = record { meaning = inl (refl, m) }

load_or_create_config-Steps :
    (written : Bool) (file : ConfigFile) (c : Config)
    → Means file c
    → Steps c c (load_or_create_config written file)
unfolding load_or_create_config
load_or_create_config-Steps written file c m =
    let (changed, e) = usable-config_of (load_config file) c m in
    let (accepted, prompt) = Means-accepted file c m in
    rw (e, load_or_create_config)
      (migrated-Steps changed written file c m (saved-Means c accepted prompt))

written-Steps :
    (written : Bool) (file : ConfigFile) (before after : Config)
    → Means file before
    → Means (saved after) after
    → Steps before after (if not written then (file, none) else (saved after, some after))
written-Steps true file before after m n = record { meaning = inr (refl, n) }
written-Steps false file before after m n = record { meaning = inl (refl, m) }

write_update-Steps :
    (written : Bool) (file : ConfigFile) (before after : Config)
    → Means file before
    → has_legacy_prompt after ≡ false
    → Steps before after (write_update written file after)
write_update-Steps written file before after m prompt = elim (Option-cases (validate after)) [
  | inl e ↦ rw e (written-Steps written file before after m (saved-Means after e prompt))
  | inr (error, e) ↦ rw e (record { meaning = inl (refl, m) })
]

update_loaded-Steps :
    (written : Bool) (f : Config → Config) (c : Config) (r : ConfigFile × Option Config)
    → has_legacy_prompt (f c) ≡ false
    → Steps c c r
    → Steps c (f c) (update_loaded written f r)
update_loaded-Steps written f c (file, none) prompt s = elim s.meaning [
  | inl (e, m) ↦ record { meaning = inl (refl, m) }
  | inr (e, m) ↦ absurd (cc)
]
update_loaded-Steps written f c (file, some d) prompt s = elim s.meaning [
  | inl (e, m) ↦ absurd (cc)
  | inr (e, m) ↦ let same : d ≡ c = cc in rw same (write_update-Steps written file c (f c) m prompt)
]

update_config_file-Steps :
    (writes : Writes) (f : Config → Config) (file : ConfigFile) (c : Config)
    → Means file c
    → has_legacy_prompt (f c) ≡ false
    → Steps c (f c) (update_config_file writes f file)
unfolding update_config_file
update_config_file-Steps writes f file c m prompt =
    update_loaded-Steps writes.update f c _ prompt
      (load_or_create_config-Steps writes.migration file c m)

-- What saving leaves: all of the new, or all of the old, or what it says could not be restored.
abbrev pub Outcome : Config → Config → Bool → Bool → Store × SaveResult → Type 0
Outcome old new was_paused paused (store, done) = Means store.file new × (store.paused ≡ paused)
Outcome old new was_paused paused (store, failed) =
    Means store.file old × (store.paused ≡ was_paused)
Outcome old new was_paused paused (store, not_restored) =
    Means store.file new × (store.paused ≡ was_paused)

control-Outcome :
    (control : Bool) (old new : Config) (paused : Bool) (store : Store) (file : ConfigFile)
    (rollback : ConfigFile × Option Config)
    → Means file new
    → Steps new old rollback
    → Outcome old new store.paused paused (
        if control
        then (record { file = file; paused = paused }, done)
        else (record store { file = rollback.0 }, restored rollback.1))
control-Outcome true old new paused store file rollback m s = (m, refl)
control-Outcome false old new paused store file (back, none) m s = elim s.meaning [
  | inl (e, n) ↦ (n, refl)
  | inr (e, n) ↦ absurd (cc)
]
control-Outcome false old new paused store file (back, some d) m s = elim s.meaning [
  | inl (e, n) ↦ absurd (cc)
  | inr (e, n) ↦ (n, refl)
]

save_control-Outcome :
    (writes : SaveWrites) (old new : Config) (paused : Bool) (store : Store)
    (r : ConfigFile × Option Config)
    → has_legacy_prompt old ≡ false
    → Steps old new r
    → Outcome old new store.paused paused (save_control writes old paused store r)
unfolding save_control
save_control-Outcome writes old new paused store (file, none) prompt s = elim s.meaning [
  | inl (e, m) ↦ (m, refl)
  | inr (e, m) ↦ absurd (cc)
]
save_control-Outcome writes old new paused store (file, some d) prompt s = elim s.meaning [
  | inl (e, m) ↦ absurd (cc)
  | inr (e, m) ↦
      control-Outcome writes.control old new paused store file _ m
        (update_config_file-Steps writes.rollback (λ c. old) file new m prompt)
]

save_loaded-Outcome :
    (writes : SaveWrites) (settings : RetrySettings) (paused : Bool) (store : Store) (c : Config)
    (r : ConfigFile × Option Config)
    → has_legacy_prompt c ≡ false
    → has_legacy_prompt (apply_retry_settings settings c) ≡ false
    → Steps c c r
    → Outcome c
        (apply_retry_settings settings c)
        store.paused
        paused
        (save_loaded writes settings paused store r)
unfolding save_loaded
save_loaded-Outcome writes settings paused store c (file, none) old new s = elim s.meaning [
  | inl (e, m) ↦ (m, refl)
  | inr (e, m) ↦ absurd (cc)
]
save_loaded-Outcome writes settings paused store c (file, some d) old new s = elim s.meaning [
  | inl (e, m) ↦ absurd (cc)
  | inr (e, m) ↦
      let same : d ≡ c = cc in
      rw same (
        save_control-Outcome writes c (apply_retry_settings settings c) paused store _ old (
          update_config_file-Steps writes.settings (λ x. apply_retry_settings settings x) file c m
            new))
]

-- Whichever of the writes fail, saving the settings and the pause together leaves both new if it
-- reports success, both old if it reports a failure, and the new settings with the old pause only if
-- it reports that they could not be restored: where the file could be read before, and the new prompt
-- is none of the two old default texts, which loading replaces.
pub set_local_settings-Outcome :
    (writes : SaveWrites) (settings : RetrySettings) (paused : Bool) (store : Store) (c : Config)
    → Means store.file c
    → has_legacy_prompt (apply_retry_settings settings c) ≡ false
    → Outcome c
        (apply_retry_settings settings c)
        store.paused
        paused
        (set_local_settings writes settings paused store)
unfolding set_local_settings
set_local_settings-Outcome writes settings paused store c m prompt =
    save_loaded-Outcome writes settings paused store c _ (Means-accepted store.file c m).1 prompt
      (load_or_create_config-Steps writes.first_migration store.file c m)
