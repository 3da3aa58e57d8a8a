-- ===== src/Resume.antt =====
-- The settings of a resumed turn (scripts/source/resume_settings.go).
pub mod Search
pub mod Settings
pub mod Access
pub mod Loaded
use codex_auto_retry.Prelude.{String, List}

-- What the JSON of a policy decodes to: nothing where it is missing, a name, or the keys of a granular
-- policy.
pub data ApprovalPolicy : Type 0 where
  no_policy other_policy : ApprovalPolicy
  named : String → ApprovalPolicy
  granular : List String → ApprovalPolicy

pub record ResumeSettings : Type 0 where
  pub cwd : String
  pub runtime_workspace_roots : List String
  pub approval_policy : ApprovalPolicy
  pub approvals_reviewer : String
  pub model : String
  pub model_provider : String
  pub service_tier : String
  pub personality : String
  pub permissions : String
  pub effort : String
  pub summary : String
