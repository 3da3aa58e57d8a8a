-- ===== src/Tests/Controllers.antt =====
-- Retries that the tests of scripts/source/shared_controller_test.go send over a controller of their own.
use codex_auto_retry.Prelude.{◌≡◌, refl, String, true, false, [], ◌∷◌, Option, none, some}
use codex_auto_retry.Text.{codes}
use codex_auto_retry.Resume.{ResumeSettings, named}
use codex_auto_retry.Resume.Search.{
  Bytes, find_latest_matching_line, prefix_bytes, max_line_bytes, line,
}
use codex_auto_retry.Resume.Settings.{
  TurnContext, AppliedSettings, settings_of, load_latest_resume_settings, has_turn_context_type,
  has_thread_settings_applied_type, valid_bounded_setting,
}
use codex_auto_retry.Resume.Loaded.{LastSays, IsLoaded, load_latest_resume_settings-IsLoaded}
use codex_auto_retry.Resume.Search.Lines.{lines, latest}
use codex_auto_retry.Resume.Search.Latest.{find_latest_matching_line-latest}
use codex_auto_retry.Controller.{
  Codex, AppThread, answer, refusal, desktop_shared_server, other_ipc_error,
}
use codex_auto_retry.Controller.Goals.{app_goal_hold_reason, app_held_conversation_allowed}
use codex_auto_retry.Controller.Dispatch.{Request, dispatch_over_server, app_thread_parent_id}
use codex_auto_retry.Controller.Dispatch.Channels.{dispatch}
use codex_auto_retry.Controller.Dispatch.Careful.{starts, Tells, Concluded}
use codex_auto_retry.Controller.Dispatch.Safe.{dispatch_over_server-Concluded}
use codex_auto_retry.Controller.Once.{dispatch-Tells}
use codex_auto_retry.Controller.BlockGoal.{block_goal}
use codex_auto_retry.Controller.Blocked.{Halts, block_goal-Halts}
use codex_auto_retry.Controller.Status.{retry_thread_status}
use codex_auto_retry.Controller.ReadOnly.{ReadOnly, Witnessed, retry_thread_status-ReadOnly}
use codex_auto_retry.Runner.Resume.{Inputs, resume, request_of}
use codex_auto_retry.Runner.Sent.{ReportsSent, resume-ReportsSent}
use codex_auto_retry.Tests.Data.{job}

abbrev settings : ResumeSettings
settings = record {
  cwd = "C:\\work";
  runtime_workspace_roots = [];
  approval_policy = named "never";
  approvals_reviewer = "";
  model = "gpt-5";
  model_provider = "";
  service_tier = "";
  personality = "";
  permissions = ":workspace";
  effort = "high";
  summary = "";
}

abbrev idle_thread : AppThread
idle_thread = record { status = "idle"; parent_thread_id = ""; source = none }

-- An app-server with the thread of the job loaded, idle and without a goal.
abbrev codex : Codex
codex = record {
  supports_home = λ home. true;
  shared_enabled = answer true;
  has_ipc = false;
  desktop = λ l. answer desktop_shared_server;
  ipc_available = λ l. false;
  ensure = λ l. answer tt;
  dial = λ l. true;
  loaded = λ l. answer (job.thread_id ∷ []);
  resume = λ l id s. answer "idle";
  read_thread = λ l id. answer (some idle_thread);
  read_goal = λ l id. answer none;
  set_goal = λ l id status. answer tt;
  start_turn = λ l id prompt. answer tt;
  inject = λ l parent child event. answer tt;
  settings_for = λ home id. answer settings;
  parent_of = λ home id. answer "";
  ipc_start_turn = λ l id s. refusal other_ipc_error;
  ipc_notify = λ l parent child event s. refusal other_ipc_error;
}

-- The deadline has passed while the turn was started.
abbrev inputs : Inputs
inputs = record {
  valid_id = λ id. true;
  settings = answer settings;
  prompt = answer "continue";
  timed_out = true;
}

abbrev request : Request
request = request_of job settings "continue"

resume_starts_one : starts (resume codex inputs job).1 ≡ 1
unfolding resume dispatch dispatch_over_server app_thread_parent_id app_goal_hold_reason
    app_held_conversation_allowed
resume_starts_one = refl

resume-ReportsSent_example : ReportsSent (resume codex inputs job).0
resume-ReportsSent_example = resume-ReportsSent codex inputs job refl resume_starts_one

dispatch_over_server-Concluded_example : Concluded request (dispatch_over_server codex request [])
dispatch_over_server-Concluded_example = dispatch_over_server-Concluded codex request [] refl tt

dispatch-Tells_example : Tells (dispatch codex request []).0 (dispatch codex request []).1
dispatch-Tells_example = dispatch-Tells codex request

block_goal-Halts_example : Halts job.thread_id (block_goal codex job.thread_id none "home" [])
block_goal-Halts_example = block_goal-Halts codex job.thread_id none "home"

abbrev two_lines : Bytes
two_lines = codes "first\r\nlast\r\n"

find_latest_matching_line-latest_example :
    find_latest_matching_line (λ prefix. true) two_lines
    ≡ some (latest (λ prefix. true) prefix_bytes max_line_bytes (lines two_lines))
find_latest_matching_line-latest_example =
    find_latest_matching_line-latest (λ prefix. true) two_lines

last_line_found : find_latest_matching_line (λ prefix. true) two_lines ≡ some (line (codes "last"))
unfolding find_latest_matching_line
last_line_found = refl

abbrev context : TurnContext
context = record {
  kind = "turn_context";
  cwd = "C:\\work";
  workspace_roots = [];
  approval_policy = named "never";
  approvals_reviewer = "";
  sandbox_type = "danger-full-access";
  profile_type = "";
  model = "gpt-5";
  personality = "";
  effort = "high";
  summary = "";
}

abbrev full_settings : ResumeSettings
full_settings = settings_of context ":danger-full-access"

abbrev only_contexts : Bytes → String
only_contexts prefix = "turn_context"

abbrev decode_context : Bytes → Option TurnContext
decode_context l = some context

abbrev no_applied : Bytes → Option AppliedSettings
no_applied l = none

full_access_loaded :
    load_latest_resume_settings (λ path. true) only_contexts decode_context no_applied two_lines
    ≡ some full_settings
unfolding load_latest_resume_settings find_latest_matching_line has_turn_context_type
    valid_bounded_setting has_thread_settings_applied_type
full_access_loaded = refl

load_latest_resume_settings-IsLoaded_example :
    IsLoaded
      (λ path. true)
      (LastSays (has_turn_context_type only_contexts) decode_context two_lines)
      (LastSays (has_thread_settings_applied_type only_contexts) no_applied two_lines)
      full_settings
load_latest_resume_settings-IsLoaded_example =
    load_latest_resume_settings-IsLoaded (λ path. true) only_contexts decode_context no_applied
      two_lines full_settings full_access_loaded

retry_thread_status-ReadOnly_example :
    let r = retry_thread_status codex job.thread_id "home" [] in
    ReadOnly r.1 × Witnessed job.thread_id r.0 r.1
retry_thread_status-ReadOnly_example = retry_thread_status-ReadOnly codex job.thread_id "home"
