-- ===== src/Controller.antt =====
-- The controller of scripts/source/shared_controller.go: the channel to Codex over which a retry is sent.
-- What it asks of Codex, of the desktop and of files is a call: `Codex` says how each is answered after the
-- calls so far, and the log keeps the answers, the latest first. A call that is refused is kept as such:
-- whether Codex has acted on it all the same is not known.
pub mod Goals
pub mod Errors
pub mod Preflight
pub mod Dispatch
pub mod BlockGoal
pub mod Status
pub mod ReadOnly
pub mod Quiet
pub mod Blocked
pub mod Reasons
pub mod Accepted
pub mod Resumed
pub mod Once
use codex_auto_retry.Prelude.{String, Bool, List, [], ◌∷◌, Option}
use codex_auto_retry.Runner.{
  DispatchResult, ControllerError, retry_later, not_applicable, user_active, dispatched,
}
use codex_auto_retry.Model.{RetryAction, no_action}
use codex_auto_retry.Events.{Value}
use codex_auto_retry.Resume.{ResumeSettings}
use codex_auto_retry.Controller.Goals.{AppGoal}
use codex_auto_retry.Controller.Errors.{RpcError, classify_app_server_error}

pub data DesktopState : Type 0 where
  desktop_stopped desktop_legacy_stdio desktop_shared_server desktop_official_ipc : DesktopState
  desktop_unknown other_state : DesktopState

-- `source` is none where it is missing or no JSON.
pub record AppThread : Type 0 where
  pub status : String
  pub parent_thread_id : String
  pub source : Option Value

pub data Entry : Type 0 where
  desktop_checked : DesktopState → Entry
  ipc_checked : Bool → Entry
  server_ensured : Entry
  loaded_listed : List String → Entry
  thread_resumed : String → String → Entry
  thread_read : String → Option AppThread → Entry
  goal_read : String → Option AppGoal → Entry
  goal_set : String → String → Entry
  turn_started : String → Entry
  notice_given : String → String → String → Entry
  refused : Entry

abbrev pub Log : Type 0
Log = List Entry

pub data Reply (E A : Type 0) : Type 0 where
  answer : A → Reply E A
  refusal : E → Reply E A

-- An error of the desktop's own channel: the thread has no owner, or any other.
pub data IpcError : Type 0 where
  owner_missing other_ipc_error : IpcError

-- `resume` answers the thread's status, "" where the reply has none; `ensure` starts the shared server
-- and retires its old route; `parent_of` reads the session's files, where a thread that is no child has
-- the parent "".
pub record Codex : Type 0 where
  pub supports_home : String → Bool
  pub shared_enabled : Reply ControllerError Bool
  pub has_ipc : Bool
  pub desktop : Log → Reply ControllerError DesktopState
  pub ipc_available : Log → Bool
  pub ensure : Log → Reply ControllerError (Unit {0})
  pub dial : Log → Bool
  pub loaded : Log → Reply RpcError (List String)
  pub resume : Log → String → ResumeSettings → Reply RpcError String
  pub read_thread : Log → String → Reply RpcError (Option AppThread)
  pub read_goal : Log → String → Reply RpcError (Option AppGoal)
  pub set_goal : Log → String → String → Reply RpcError (Unit {0})
  pub start_turn : Log → String → Option String → Reply RpcError (Unit {0})
  pub inject : Log → String → String → String → Reply RpcError (Unit {0})
  pub settings_for : String → String → Reply RpcError ResumeSettings
  pub parent_of : String → String → Reply (Unit {0}) String
  pub ipc_start_turn : Log → String → ResumeSettings → Reply IpcError (Unit {0})
  pub ipc_notify : Log → String → String → String → ResumeSettings → Reply IpcError (Unit {0})

-- What a method of the controller returns.
pub data Answer : Type 0 where
  result : DispatchResult → Answer
  error : ControllerError → Answer

-- A step of a method goes on, or returns.
pub data Step (A : Type 0) : Type 0 where
  more : A → Step A
  stop : Answer → Step A

abbrev pub Exec : Type 0 → Type 0
Exec A = Log → Step A × Log

abbrev pub continue : {A B : Type 0} → Step A → Log → (A → Exec B) → Step B × Log
continue (more a) log f = f a log
continue (stop r) log f = (stop r, log)

infixl 5 ◌>>=◌ ◌>>◌
abbrev pub ◌>>=◌ : {A B : Type 0} → Exec A → (A → Exec B) → Exec B
◌>>=◌ m f log = continue (m log).0 (m log).1 f

abbrev pub ◌>>◌ : {B : Type 0} → Exec (Unit {0}) → Exec B → Exec B
m >> n = m >>= λ _. n

abbrev pub return : {A : Type 0} → Answer → Exec A
return r log = (stop r, log)

abbrev pub retry_later_result : String → Bool → DispatchResult
retry_later_result reason parent_notified = record {
  outcome = retry_later;
  action = no_action;
  reason = reason;
  parent_notified = parent_notified;
}

abbrev pub not_applicable_result : String → Bool → DispatchResult
not_applicable_result reason parent_notified = record (retry_later_result reason parent_notified) {
  outcome = not_applicable;
}

abbrev pub user_active_result : Bool → DispatchResult
user_active_result parent_notified = record (retry_later_result "thread_active" parent_notified) {
  outcome = user_active;
}

abbrev pub dispatched_result : RetryAction → String → Bool → DispatchResult
dispatched_result action reason parent_notified =
    record (retry_later_result reason parent_notified) { outcome = dispatched; action = action }

abbrev pub replied : {A : Type 0} → Bool → (A → Entry) → Reply RpcError A → Exec A
replied parent_notified entry (answer a) log = (more a, entry a ∷ log)
replied parent_notified entry (refusal e) log = (
  stop (result (retry_later_result (classify_app_server_error e) parent_notified)),
  refused ∷ log,
)

-- A call of the app-server, whose error defers the retry.
abbrev pub ask : {A : Type 0} → Bool → (A → Entry) → (Log → Reply RpcError A) → Exec A
ask parent_notified entry call log = replied parent_notified entry (call log) log
