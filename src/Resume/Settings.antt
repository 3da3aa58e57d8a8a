-- ===== src/Resume/Settings.antt =====
-- The settings that a rollout file tells of (scripts/source/resume_settings.go): those of its last turn, changed by
-- the last that were applied. The decoding of a line is outside, and `is_abs` is `filepath.IsAbs`.
use codex_auto_retry.Prelude.{
  ℕ, ◌+◌, ◌*◌, String, Bool, true, false, not, ◌&&◌, ◌||◌, List, [], ◌∷◌, Option, none, some, ltb,
  leb, ◌==◌, if◌then◌else◌, length,
}
use codex_auto_retry.Text.{Text, codes, contains}
use codex_auto_retry.Resume.{
  ResumeSettings, ApprovalPolicy, no_policy, other_policy, named, granular,
}
use codex_auto_retry.Resume.Search.{Bytes, FoundLine, nothing, line, find_latest_matching_line}

pub record TurnContext : Type 0 where
  pub kind : String
  pub cwd : String
  pub workspace_roots : List String
  pub approval_policy : ApprovalPolicy
  pub approvals_reviewer : String
  pub sandbox_type : String
  pub profile_type : String
  pub model : String
  pub personality : String
  pub effort : String
  pub summary : String

-- `profile_id` is `none` where no profile is active.
pub record AppliedSettings : Type 0 where
  pub kind : String
  pub payload_kind : String
  pub model : String
  pub model_provider : String
  pub service_tier : String
  pub approval_policy : ApprovalPolicy
  pub approvals_reviewer : String
  pub profile_id : Option String
  pub cwd : String
  pub effort : String
  pub summary : String
  pub personality : String

abbrev pub max_workspace_roots : ℕ
max_workspace_roots = 128

abbrev pub max_setting_bytes : ℕ
max_setting_bytes = 32 * 1024

-- The bytes of a rune in UTF-8, and of a text.
abbrev pub rune_bytes : ℕ → ℕ
rune_bytes c = if ltb c 0x80 then 1 else if ltb c 0x800 then 2 else if ltb c 0x10000 then 3 else 4

unfoldable pub text_bytes : Text → ℕ
text_bytes [] = 0
text_bytes (c ∷ rest) = rune_bytes c + text_bytes rest

-- `unicode.IsControl`
abbrev pub is_control : ℕ → Bool
is_control c = ltb c 0x20 || (leb 0x7f c && ltb c 0xa0)

unfoldable pub has_control : Text → Bool
has_control [] = false
has_control (c ∷ rest) = is_control c || has_control rest

unfoldable pub valid_bounded_setting : String → Bool
unfolding text_bytes has_control
valid_bounded_setting value =
    not (value == "")
    && leb (text_bytes (codes value)) max_setting_bytes
    && not (has_control (codes value))

abbrev pub is_one_of : String → List String → Bool
is_one_of value [] = false
is_one_of value (x ∷ rest) = value == x || is_one_of value rest

abbrev pub all_of : (String → Bool) → List String → Bool
all_of test [] = true
all_of test (x ∷ rest) = test x && all_of test rest

abbrev pub granular_keys : List String
granular_keys =
    "mcp_elicitations" ∷ "request_permissions" ∷ "rules" ∷ "sandbox_approval" ∷ "skill_approval"
    ∷ []

unfoldable pub valid_approval_policy : ApprovalPolicy → Bool
valid_approval_policy no_policy = false
valid_approval_policy other_policy = false
valid_approval_policy (named name) = name == "untrusted" || name == "on-request" || name == "never"
valid_approval_policy (granular keys) =
    all_of (λ key. is_one_of key granular_keys) keys
    && is_one_of "mcp_elicitations" keys
    && is_one_of "rules" keys
    && is_one_of "sandbox_approval" keys

-- `none` is an error.
unfoldable pub resume_permission_profile : String → String → Option String
resume_permission_profile sandbox_type profile_type =
    if sandbox_type == "danger-full-access"
    then (if not (profile_type == "") && not (profile_type == "disabled")
        then none
        else some ":danger-full-access")
    else if sandbox_type == "read-only"
    then (if not (profile_type == "") && not (profile_type == "managed")
        then none
        else some ":read-only")
    else if sandbox_type == "workspace-write"
    then (if not (profile_type == "") && not (profile_type == "managed")
        then none
        else some ":workspace")
    else none

abbrev pub unless_empty : String → String → String
unless_empty value current = if value == "" then current else value

abbrev pub unless_missing : ApprovalPolicy → ApprovalPolicy → ApprovalPolicy
unless_missing no_policy current = current
unless_missing policy current = policy

abbrev pub profile_or : Option String → String → String
profile_or none current = current
profile_or (some id) current = unless_empty id current

unfoldable pub merge_applied_thread_settings :
    ResumeSettings → AppliedSettings → Option ResumeSettings
merge_applied_thread_settings settings applied =
    if not (applied.kind == "event_msg") || not (applied.payload_kind == "thread_settings_applied")
    then none
    else some (record settings {
      cwd = unless_empty applied.cwd settings.cwd;
      model = unless_empty applied.model settings.model;
      model_provider = applied.model_provider;
      service_tier = applied.service_tier;
      approval_policy = unless_missing applied.approval_policy settings.approval_policy;
      approvals_reviewer = unless_empty applied.approvals_reviewer settings.approvals_reviewer;
      permissions = profile_or applied.profile_id settings.permissions;
      effort = unless_empty applied.effort settings.effort;
      summary = unless_empty applied.summary settings.summary;
      personality = unless_empty applied.personality settings.personality;
    })

abbrev pub settings_of : TurnContext → String → ResumeSettings
settings_of context permissions = record {
  cwd = context.cwd;
  runtime_workspace_roots = context.workspace_roots;
  approval_policy = context.approval_policy;
  approvals_reviewer = context.approvals_reviewer;
  model = context.model;
  model_provider = "";
  service_tier = "";
  personality = context.personality;
  permissions = permissions;
  effort = context.effort;
  summary = context.summary;
}

abbrev pub thread_settings_applied_marks : Bytes → Bool
thread_settings_applied_marks prefix =
    contains prefix (codes "\"type\":\"thread_settings_applied\"")
    || contains prefix (codes "\"type\": \"thread_settings_applied\"")

-- `type_of` is the text of the top-level field `type` in the beginning of a line.
unfoldable pub has_turn_context_type : (Bytes → String) → Bytes → Bool
has_turn_context_type type_of prefix = type_of prefix == "turn_context"

unfoldable pub has_thread_settings_applied_type : (Bytes → String) → Bytes → Bool
has_thread_settings_applied_type type_of prefix =
    type_of prefix == "event_msg" && thread_settings_applied_marks prefix

abbrev pub and_then : {A B : Type 0} → Option A → (A → Option B) → Option B
and_then none f = none
and_then (some a) f = f a

module _ (is_abs : String → Bool) where
  abbrev pub valid_absolute_setting_path : String → Bool
  valid_absolute_setting_path value = is_abs value && valid_bounded_setting value

  unfoldable pub validate_resume_settings : ResumeSettings → Bool
  unfolding valid_approval_policy
  validate_resume_settings settings =
      valid_absolute_setting_path settings.cwd
      && leb (length settings.runtime_workspace_roots) max_workspace_roots
      && all_of valid_absolute_setting_path settings.runtime_workspace_roots
      && (valid_bounded_setting settings.model && valid_bounded_setting settings.effort)
      && (settings.model_provider == "" || valid_bounded_setting settings.model_provider)
      && (settings.service_tier == "" || valid_bounded_setting settings.service_tier)
      && valid_bounded_setting settings.permissions
      && valid_approval_policy settings.approval_policy
      && is_one_of settings.approvals_reviewer
          ("" ∷ "user" ∷ "auto_review" ∷ "guardian_subagent" ∷ [])
      && is_one_of settings.personality ("" ∷ "none" ∷ "friendly" ∷ "pragmatic" ∷ [])
      && is_one_of settings.summary ("" ∷ "none" ∷ "auto" ∷ "concise" ∷ "detailed" ∷ [])

  abbrev pub validated : ResumeSettings → Option ResumeSettings
  validated settings = if validate_resume_settings settings then some settings else none

  abbrev pub with_permissions : TurnContext → Option String → Option ResumeSettings
  with_permissions context none = none
  with_permissions context (some permissions) = validated (settings_of context permissions)

  unfoldable pub parse_resume_settings : TurnContext → Option ResumeSettings
  unfolding resume_permission_profile validate_resume_settings
  parse_resume_settings context =
      if not (context.kind == "turn_context")
      then none
      else with_permissions context
          (resume_permission_profile context.sandbox_type context.profile_type)

  module _ (type_of : Bytes → String) (decode_context : Bytes → Option TurnContext)
      (decode_applied : Bytes → Option AppliedSettings) where
    -- The line of the last turn.
    abbrev pub context_of : Option FoundLine → Option TurnContext
    context_of (some (line l)) = decode_context l
    context_of _ = none

    abbrev pub with_applied : ResumeSettings → Option FoundLine → Option ResumeSettings
    with_applied settings (some nothing) = some settings
    with_applied settings (some (line l)) =
        and_then (decode_applied l) (merge_applied_thread_settings settings)
    with_applied settings _ = none

    -- `loadLatestResumeSettings`, from the file's bytes; `none` is `errResumeSettingsUnavailable`.
    unfoldable pub load_latest_resume_settings : Bytes → Option ResumeSettings
    unfolding parse_resume_settings merge_applied_thread_settings validate_resume_settings
    load_latest_resume_settings file =
        and_then (context_of (find_latest_matching_line (has_turn_context_type type_of) file))
          λ context. and_then (parse_resume_settings context) λ settings.
            and_then
              (with_applied settings
                (find_latest_matching_line (has_thread_settings_applied_type type_of) file))
              validated
