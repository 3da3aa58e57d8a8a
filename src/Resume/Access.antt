-- ===== src/Resume/Access.antt =====
-- What the settings of a turn and those that were applied (scripts/source/resume_settings.go) make of the
-- permissions and the workspace roots.
use codex_auto_retry.Prelude.{
  ◌≡◌, ◌⊎◌, refl, sym, List, [], arith, String, Bool, true, false, not, ◌||◌, Option, none, some,
  ◌==◌, if◌then◌else◌, Bool-cases, inl, inr, eq_iff, ap, ◌&&◌,
}
use codex_auto_retry.Resume.{ResumeSettings}
use codex_auto_retry.Resume.Settings.{
  TurnContext, AppliedSettings, resume_permission_profile, merge_applied_thread_settings,
  validate_resume_settings, validated, with_permissions, settings_of, profile_or,
  parse_resume_settings,
}

or_refused-same : (b : Bool) (p q : String) → (if b then none else some p) ≡ some q → p ≡ q
or_refused-same true p q h = ground (arith, h)
or_refused-same false p q h = ground (arith, h)

resume_permission_profile-full :
    (sandbox_type profile_type : String)
    → resume_permission_profile sandbox_type profile_type ≡ some ":danger-full-access"
    → sandbox_type ≡ "danger-full-access"
unfolding resume_permission_profile
resume_permission_profile-full sandbox_type profile_type h =
    elim (Bool-cases (sandbox_type == "danger-full-access")) [
      | inl e ↦ (eq_iff sandbox_type "danger-full-access").0 e
      | inr e ↦ elim (Bool-cases (sandbox_type == "read-only")) [
        | inl r ↦
            let differ : false ≡ true = (eq_iff ":read-only" ":danger-full-access").1 (
              or_refused-same (not (profile_type == "") && not (profile_type == "managed")) _ _
                (rw (e, r) at h)) in
            ground (arith, differ)
        | inr r ↦ elim (Bool-cases (sandbox_type == "workspace-write")) [
          | inl w ↦
              let differ : false ≡ true = (eq_iff ":workspace" ":danger-full-access").1 (
                or_refused-same (not (profile_type == "") && not (profile_type == "managed")) _ _
                  (rw (e, r, w) at h)) in
              ground (arith, differ)
          | inr w ↦
              let gone : none ≡ some ":danger-full-access" = rw (e, r, w) at h in
              ground (arith, gone)
        ]
      ]
    ]

module _ (is_abs : String → Bool) where
  pub validated-valid :
      (settings s : ResumeSettings)
      → validated is_abs settings ≡ some s
      → (settings ≡ s) × (validate_resume_settings is_abs s ≡ true)
  validated-valid settings s h = elim (Bool-cases (validate_resume_settings is_abs settings)) [
    | inl e ↦
        let found : some settings ≡ some s = rw e at h in
        let same : settings ≡ s = ground (arith, found) in (same, rw same at e)
    | inr e ↦ let gone : none ≡ some s = rw e at h in ground (arith, gone)
  ]

  with_permissions-same :
      (context : TurnContext) (profile : Option String) (s : ResumeSettings)
      → with_permissions is_abs context profile ≡ some s
      → settings_of context s.permissions ≡ s
  with_permissions-same context none s h = ground (arith, h)
  with_permissions-same context (some permissions) s h =
      let same = (validated-valid (settings_of context permissions) s h).0 in
      let given : permissions ≡ s.permissions = ap (λ t. t.permissions) same in rw given at same

  with_permissions-full :
      (context : TurnContext) (profile : Option String) (s : ResumeSettings)
      → with_permissions is_abs context profile ≡ some s
      → profile ≡ some s.permissions
  with_permissions-full context none s h = ground (arith, h)
  with_permissions-full context (some permissions) s h =
      let same = (validated-valid (settings_of context permissions) s h).0 in
      let given : permissions ≡ s.permissions = ap (λ t. t.permissions) same in rw given refl

  -- The settings of a turn have the workspace roots of its context.
  pub parse_resume_settings-roots :
      (context : TurnContext) (s : ResumeSettings)
      → parse_resume_settings is_abs context ≡ some s
      → s.runtime_workspace_roots ≡ context.workspace_roots
  unfolding parse_resume_settings
  parse_resume_settings-roots context s h = elim (Bool-cases (context.kind == "turn_context")) [
    | inl e ↦
        sym (ap (λ t. t.runtime_workspace_roots) (with_permissions-same context _ s (rw e at h)))
    | inr e ↦ let gone : none ≡ some s = rw e at h in ground (arith, gone)
  ]

  pub parse_resume_settings-full :
      (context : TurnContext) (s : ResumeSettings)
      → parse_resume_settings is_abs context ≡ some s
      → s.permissions ≡ ":danger-full-access"
      → context.sandbox_type ≡ "danger-full-access"
  unfolding parse_resume_settings
  parse_resume_settings-full context s h full = elim (Bool-cases (context.kind == "turn_context")) [
    | inl e ↦
        let profile = with_permissions-full context _ s (rw e at h) in
        resume_permission_profile-full context.sandbox_type context.profile_type
          (rw full at profile)
    | inr e ↦ let gone : none ≡ some s = rw e at h in ground (arith, gone)
  ]

abbrev pub permissions_of : Option ResumeSettings → String
permissions_of none = ""
permissions_of (some s) = s.permissions

profile_or-full :
    (profile : Option String) (current : String)
    → profile_or profile current ≡ ":danger-full-access"
    → (current ≡ ":danger-full-access") ⊎ (profile ≡ some ":danger-full-access")
profile_or-full none current h = inl h
profile_or-full (some id) current h = elim (Bool-cases (id == "")) [
  | inl e ↦ inl (rw e at h)
  | inr e ↦ let full : id ≡ ":danger-full-access" = rw e at h in inr (rw full refl)
]

abbrev pub roots_of : Option ResumeSettings → List String
roots_of none = []
roots_of (some s) = s.runtime_workspace_roots

-- The applied settings leave the workspace roots as they are.
pub merge_applied_thread_settings-roots :
    (settings s : ResumeSettings) (applied : AppliedSettings)
    → merge_applied_thread_settings settings applied ≡ some s
    → s.runtime_workspace_roots ≡ settings.runtime_workspace_roots
unfolding merge_applied_thread_settings
merge_applied_thread_settings-roots settings s applied h =
    elim (Bool-cases (
      not (applied.kind == "event_msg")
      || not (applied.payload_kind == "thread_settings_applied"))) [
        | inl e ↦ let gone : none ≡ some s = rw e at h in ground (arith, gone)
        | inr e ↦ sym (ap roots_of (rw e at h))
      ]

pub merge_applied_thread_settings-full :
    (settings s : ResumeSettings) (applied : AppliedSettings)
    → merge_applied_thread_settings settings applied ≡ some s
    → s.permissions ≡ ":danger-full-access"
    → (settings.permissions ≡ ":danger-full-access")
      ⊎ (applied.profile_id ≡ some ":danger-full-access")
unfolding merge_applied_thread_settings
merge_applied_thread_settings-full settings s applied h full =
    elim (Bool-cases (
      not (applied.kind == "event_msg")
      || not (applied.payload_kind == "thread_settings_applied"))) [
        | inl e ↦ let gone : none ≡ some s = rw e at h in ground (arith, gone)
        | inr e ↦
            let given : profile_or applied.profile_id settings.permissions ≡ s.permissions =
              ap permissions_of (rw e at h) in
            profile_or-full applied.profile_id settings.permissions (rw full at given)
      ]
