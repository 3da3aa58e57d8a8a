-- ===== src/Daemon/Fallback.antt =====
-- When the shared backend is used and when it is given up (`processSharedRecovery` of
-- scripts/source/shared_recovery_windows.go; `controllerRestartReady` of daemon.go).
use codex_auto_retry.Prelude.{
  ◌-◌, ◌*◌, ◌≤◌, ◌<◌, ◌≡◌, refl, arith, String, Bool, true, false, not, if◌then◌else◌, [], ◌∷◌,
  Option, none, some, Time, second, ◌==◌, eq_iff, inl, inr, Bool-cases, ◌⊎◌, ◌↔◌, Table,
}
use codex_auto_retry.Policy.{controller_failure_needs_fail_open, one_of}
use codex_auto_retry.Daemon.{Daemon, RetryJob, Loaded, loaded, load_error}
use codex_auto_retry.Daemon.Controller.{
  FailOpen, fail_open_shared_backend, set_controller_state, has_latched_config_failure,
  skips_controller_probe, note_controller_probe, probed_state, is_ready_state,
  controller_restart_ready,
}
use codex_auto_retry.Daemon.Recovery.{
  Availability, no_record, unreadable_record, recorded, RecoveryRequest, is_expired, is_busy,
  preparation_reason, availability_reason, config_reason, recovery_reason,
}

-- The user has asked for shared mode.
abbrev pub is_requested : Loaded → Bool
is_requested (load_error message) = false
is_requested (loaded config) = config.shared_app_server_requested

-- Nothing on record forbids an automatic recovery.
abbrev pub allows_recovery : Availability → Bool
allows_recovery no_record = true
allows_recovery (recorded allowed) = allowed
allows_recovery _ = false

-- A check that fails with a reason of its own.
guarded :
    (fails : Bool) (reason rest : String)
    → (reason == "prepared") ≡ false
    → ((if fails then reason else rest) == "prepared") ≡ true
      ↔ (fails ≡ false) × ((rest == "prepared") ≡ true)
guarded true reason rest n = (λ h. absurd (cc), λ h. absurd (cc))
guarded false reason rest n = (λ h. (refl, h), λ h. h.1)

preparation_reason-exact :
    (r : RecoveryRequest)
    → (preparation_reason r == "prepared") ≡ true
      ↔ (r.turned_off ≡ true) × (r.cleaned_up ≡ true) × (r.prepared ≡ true) × (r.turned_on ≡ true)
unfolding preparation_reason
preparation_reason-exact r =
    let switched : String = if not r.turned_on then "recovery_cancelled" else "prepared" in
    let backed : String = if not r.prepared then "backend_prepare_failed" else switched in
    let all_clean : String = if not r.cleaned_up then "cleanup_not_safe" else backed in
    grind (
      arith,
      guarded (not r.turned_off) "recovery_cancelled" all_clean refl,
      guarded (not r.cleaned_up) "cleanup_not_safe" backed refl,
      guarded (not r.prepared) "backend_prepare_failed" switched refl,
      guarded (not r.turned_on) "recovery_cancelled" "prepared" refl,
    )

availability_reason-exact :
    (r : RecoveryRequest) (a : Availability)
    → (availability_reason r a == "prepared") ≡ true
      ↔ (allows_recovery a ≡ true) × ((preparation_reason r == "prepared") ≡ true)
unfolding availability_reason
availability_reason-exact r no_record = (λ h. (refl, h), λ h. h.1)
availability_reason-exact r unreadable_record = (λ h. absurd (cc), λ h. absurd (cc))
availability_reason-exact r (recorded true) = (λ h. (refl, h), λ h. h.1)
availability_reason-exact r (recorded false) = (λ h. absurd (cc), λ h. absurd (cc))

config_reason-exact :
    (r : RecoveryRequest) (read : Loaded)
    → (config_reason r read == "prepared") ≡ true
      ↔ (is_requested read ≡ true)
        × (allows_recovery r.availability ≡ true)
        × ((preparation_reason r == "prepared") ≡ true)
unfolding config_reason
config_reason-exact r (load_error message) = (λ h. absurd (cc), λ h. absurd (cc))
config_reason-exact r (loaded config) = grind (
  arith,
  guarded (not config.shared_app_server_requested) "preference_disabled"
      (availability_reason r r.availability) refl,
  availability_reason-exact r r.availability,
)

is_expired-exact :
    (now : Time) (r : RecoveryRequest)
    → is_expired now r ≡ false ↔ (now < r.expires_at) × (r.expires_at - now ≤ 15 * second)
is_expired-exact now r = ground arith

is_busy-exact : (active : Table RetryJob) → is_busy active ≡ false ↔ active ≡ []
is_busy-exact [] = (λ h. refl, λ h. refl)
is_busy-exact (x ∷ rest) = (λ h. absurd (cc), λ h. absurd (cc))

-- A recovery request is granted exactly if it is neither expired nor made for more than 15 seconds
-- ahead, the desktop does not run, no job is under way, the user has asked for shared mode, nothing on
-- record forbids it, and every step of the preparation has succeeded.
pub recovery_reason-exact :
    (now : Time) (active : Table RetryJob) (r : RecoveryRequest)
    → (recovery_reason now active r == "prepared") ≡ true
      ↔ (now < r.expires_at)
        × (r.expires_at - now ≤ 15 * second)
        × (r.desktop_running ≡ false)
        × (active ≡ [])
        × (is_requested r.config ≡ true)
        × (allows_recovery r.availability ≡ true)
        × (r.turned_off ≡ true)
        × (r.cleaned_up ≡ true)
        × (r.prepared ≡ true)
        × (r.turned_on ≡ true)
unfolding recovery_reason
recovery_reason-exact now active r = grind (
  arith,
  guarded (is_expired now r) "request_expired" _ refl,
  guarded r.desktop_running "desktop_already_running" _ refl,
  guarded (is_busy active) "worker_busy" _ refl,
  is_expired-exact now r,
  is_busy-exact active,
  config_reason-exact r r.config,
  preparation_reason-exact r,
)

probed_state-answered :
    (enabled : Bool) (result : FailOpen)
    → (is_ready_state (probed_state enabled result "ready") ≡ true
        → (probed_state enabled result "ready" ≡ "ready") × (enabled ≡ true))
      × (probed_state enabled result "official_ipc_ready" ≡ "official_ipc_ready")
unfolding probed_state controller_failure_needs_fail_open one_of
probed_state-answered true result = (λ h. (refl, refl), refl)
probed_state-answered false result = (λ h. absurd (cc), refl)

probed_state-cases :
    (enabled : Bool) (result : FailOpen) (answer : String)
    → (probed_state enabled result answer ≡ answer)
      ⊎ (probed_state enabled result answer ≡ "shared_app_server_disabled")
unfolding probed_state fail_open_shared_backend
probed_state-cases enabled result answer = ground arith

-- A state that is ready is the answer itself.
probed_state-ready :
    (enabled : Bool) (result : FailOpen) (answer : String)
    → is_ready_state (probed_state enabled result answer) ≡ true
    → (probed_state enabled result answer ≡ answer)
      × ((answer ≡ "official_ipc_ready") ⊎ ((answer ≡ "ready") × (enabled ≡ true)))
unfolding probed_state fail_open_shared_backend
probed_state-ready enabled result answer h =
    let (ready, official) = probed_state-answered enabled result in
    elim (Bool-cases (answer == "ready")) [
      | inl e ↦
          let same = (eq_iff answer "ready").0 e in
          let (state, on) = ready (rw same at h) in rw same (state, inr (refl, on))
      | inr e ↦ elim (Bool-cases (answer == "official_ipc_ready")) [
        | inl i ↦
            let same = (eq_iff answer "official_ipc_ready").0 i in rw same (official, inl refl)
        | inr i ↦ elim (probed_state-cases enabled result answer) [
          | inl same ↦ absurd (ground (arith, e, i, rw same at h))
          | inr off ↦ let never : false ≡ true = rw off at h in absurd (cc)
        ]
      ]
    ]

set_controller_state-ready :
    (state : String) (d : Daemon)
    → (state == "shared_app_server_disabled") ≡ false
    → (set_controller_state state d).config ≡ d.config
unfolding set_controller_state
set_controller_state-ready state d h = rw h refl

is_ready_state-enabled :
    (state : String)
    → (state ≡ "official_ipc_ready") ⊎ (state ≡ "ready")
    → (state == "shared_app_server_disabled") ≡ false
is_ready_state-enabled state (inl e) = rw e refl
is_ready_state-enabled state (inr e) = rw e refl

-- The controller counts as ready only if its own answer says so, over the shared backend while that is
-- in use or over official IPC, and if its last probe is at least 10 seconds old and no failure of the
-- configuration is latched; the daemon's state then is that answer, and shared mode is left as it is.
pub controller_restart_ready_sound :
    (now : Time) (answer : Option String) (result : FailOpen) (d : Daemon)
    → (controller_restart_ready now answer result d).1 ≡ true
    → let d' = (controller_restart_ready now answer result d).0 in
      (answer ≡ some d'.controller_state)
      × ((d'.controller_state ≡ "official_ipc_ready")
          ⊎ ((d'.controller_state ≡ "ready") × (d.config.shared_app_server_enabled ≡ true)))
      × (d.last_controller_probe ≡ 0 ⊎ 10 * second ≤ now - d.last_controller_probe)
      × (d'.last_controller_probe ≡ now)
      × (has_latched_config_failure d ≡ false)
      × (d'.config ≡ d.config)
unfolding controller_restart_ready set_controller_state note_controller_probe skips_controller_probe
controller_restart_ready_sound now none result d h = absurd (cc)
controller_restart_ready_sound now (some answer) result d h =
    let enabled = d.config.shared_app_server_enabled in
    let state = probed_state enabled result answer in
    ground (
      arith,
      h,
      probed_state-ready enabled result answer,
      is_ready_state-enabled state,
      set_controller_state-ready state
          (unfold note_controller_probe in note_controller_probe now d),
    )
