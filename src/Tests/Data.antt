-- ===== src/Tests/Data.antt =====
-- The inputs of the runs: a thread in each of its states, a daemon, and events of a rollout file.
use codex_auto_retry.Prelude.{
  ◌*◌, true, false, [], ◌∷◌, Option, none, some, Time, second, refl, arith,
}
use codex_auto_retry.Text.{Text}
use codex_auto_retry.Model.{
  RelevantEvent, PendingRetry, AwaitingRetry, StoppedRetry, ThreadState, class_server,
  action_conversation_continue, no_action,
}
use codex_auto_retry.Config.{default_config}
use codex_auto_retry.Config.Bounds.{IsValid, validate-IsValid, default_config_accepted}
use codex_auto_retry.Classifier.CcSwitch.{Json}
use codex_auto_retry.Digest.{Digest}
use codex_auto_retry.Thread.{ScannedEvent, zero_thread}
use codex_auto_retry.Thread.WellFormed.{IsWellFormed}
use codex_auto_retry.Daemon.{Daemon, RetryJob, job_recovery}
use codex_auto_retry.Daemon.Invariant.Loops.{AllWellFormed}
use codex_auto_retry.Runner.{DispatchResult, dispatched, retry_later}

-- No text is JSON here.
abbrev pub no_json : Text → Option Json
no_json text = none

-- A digest that keeps the first byte only, and a layout of times that tells none apart.
abbrev pub digest : Digest
digest = record {
  sha6 = λ text. elim text [ [] ↦ "0" | _ ↦ "1" ];
  sha12 = λ text. elim text [ [] ↦ "00" | _ ↦ "11" ];
  format_time = λ at. "t";
}

abbrev pub failed_at : Time
failed_at = 1000 * second

abbrev pub now : Time
now = 1010 * second

abbrev pub later : Time
later = 1020 * second

abbrev pub event : RelevantEvent
event = record {
  kind = "task_complete";
  thread_id = "";
  turn_id = "turn-1";
  timestamp = failed_at;
  error_text = "unexpected status 503 service unavailable";
  final_known = true;
  final_present = false;
  abort_reason = "";
  goal_status = "";
  goal_updated_at = 0;
  parent_thread_id = "";
  recovery_event_id = "";
}

abbrev pub started : RelevantEvent
started = record event {
  kind = "task_started";
  turn_id = "turn-2";
  error_text = "";
  timestamp = now;
}

abbrev pub scanned : ScannedEvent
scanned = record {
  thread_id = "a";
  event = event;
  codex_home = "home";
  rollout_path = "home/a.jsonl";
  mirrored = false;
}

abbrev pub pending : PendingRetry
pending = record {
  event_key = "key";
  failed_turn_id = "turn-1";
  failed_at = failed_at;
  origin_turn_started_at = 0;
  failure_class = class_server;
  due_at = 1005 * second;
  codex_home = "home";
  rollout_path = "home/a.jsonl";
  attempt = 2;
  max_attempts = 15;
  consecutive_retry = 1;
  max_consecutive = 5;
  dispatch_failures = 0;
  parent_notified = false;
  goal_limit_restart = false;
}

abbrev pub awaiting : AwaitingRetry
awaiting = record {
  event_key = "key";
  failed_turn_id = "turn-1";
  failed_at = failed_at;
  origin_turn_started_at = 0;
  retry_turn_id = "turn-2";
  failure_class = class_server;
  action = action_conversation_continue;
  attempt = 2;
  max_attempts = 15;
  consecutive_retry = 1;
  max_consecutive = 5;
  dispatch_failures = 0;
  parent_notified = false;
  goal_limit_restart = false;
  dispatch_started_at = 1005 * second;
  start_deadline = 1035 * second;
  started_at = 1006 * second;
  lifecycle_checks = 0;
  last_lifecycle_check_at = 0;
  codex_home = "home";
  rollout_path = "home/a.jsonl";
}

abbrev pub stopped : StoppedRetry
stopped = record {
  event_key = "key";
  failed_turn_id = "turn-1";
  failed_at = failed_at;
  origin_turn_started_at = 0;
  failure_class = class_server;
  stopped_at = 1005 * second;
  codex_home = "home";
  rollout_path = "home/a.jsonl";
  attempts = 1;
  max_attempts = 15;
  consecutive_retries = 0;
  max_consecutive = 5;
  reason = "codex_restart_required";
  historical = false;
  transport_blocked = none;
}

abbrev pub failing : ThreadState
failing = record zero_thread {
  recovery_attempts = 2;
  consecutive_retries = 1;
  recovery_started_at = failed_at;
  last_failure_at = failed_at;
  last_started_turn_id = "turn-1";
  last_started_at = 990 * second;
}

abbrev pub waiting_thread : ThreadState
waiting_thread = record failing { pending = some pending }

abbrev pub awaiting_thread : ThreadState
awaiting_thread = record failing { awaiting = some awaiting }

abbrev pub stopped_thread : ThreadState
stopped_thread = record failing {
  recovery_attempts = 1;
  consecutive_retries = 0;
  stopped = some stopped;
}

abbrev pub daemon : Daemon
daemon = record {
  config = default_config;
  started_at = failed_at;
  initialized = true;
  files = [];
  threads = ("a", waiting_thread) ∷ ("b", awaiting_thread) ∷ ("c", stopped_thread) ∷ [];
  processed_events = [];
  active = [];
  active_ctx = [];
  last_scan = 0;
  last_error = "";
  controller_state = "official_ipc_ready";
  last_controller_probe = 0;
  paused = false;
  memory_usage_bytes = 0;
  memory_guard_triggered = false;
  shared_memory_bytes = 0;
  shared_memory_guard_triggered = false;
  last_shared_memory_check = 0;
  state_write_deferred = false;
  status_write_deferred = false;
}

abbrev pub job : RetryJob
job = record {
  kind = job_recovery;
  thread_id = "b";
  failed_turn_id = "turn-1";
  failed_at = failed_at;
  origin_turn_started_at = 0;
  event_key = "key";
  failure_class = class_server;
  codex_home = "home";
  rollout_path = "home/a.jsonl";
  attempt = 2;
  max_attempts = 15;
  consecutive_retry = 1;
  max_consecutive = 5;
  dispatch_failures = 0;
  parent_notified = false;
  goal_limit_restart = false;
  recovery_event_id = "";
}

abbrev pub accepted : DispatchResult
accepted = record {
  outcome = dispatched;
  action = action_conversation_continue;
  reason = "";
  parent_notified = false;
}

abbrev pub deferred : DispatchResult
deferred = record {
  outcome = retry_later;
  action = no_action;
  reason = "thread_busy";
  parent_notified = false;
}

pub default_config-IsValid : IsValid default_config
default_config-IsValid = validate-IsValid default_config default_config_accepted

pub waiting_thread-IsWellFormed : IsWellFormed waiting_thread
waiting_thread-IsWellFormed = ground arith

awaiting_thread-IsWellFormed : IsWellFormed awaiting_thread
awaiting_thread-IsWellFormed = ground arith

stopped_thread-IsWellFormed : IsWellFormed stopped_thread
stopped_thread-IsWellFormed = ground arith

pub daemon-AllWellFormed : AllWellFormed daemon
daemon-AllWellFormed = (
  (waiting_thread-IsWellFormed, (awaiting_thread-IsWellFormed, (stopped_thread-IsWellFormed, tt))),
  ((refl, (refl, tt)), ((refl, tt), (tt, tt))),
)
