-- ===== src/Daemon.antt =====
-- The daemon of scripts/source/daemon.go: the threads it watches, the jobs it runs, and the loops over
-- its threads. The mutex makes each operation here atomic.
pub mod Handle
pub mod Dispatch
pub mod Job
pub mod GoalBlock
pub mod Controller
pub mod Memory
pub mod Recovery
pub mod Status
pub mod Tick
pub mod Invariant
pub mod Reach
pub mod Loop
pub mod Once
pub mod Capacity
pub mod SortedDue
pub mod Justified
pub mod Progress
pub mod Sorted
pub mod Limits
pub mod Release
pub mod Fallback
pub mod Guard
pub mod Reported
use codex_auto_retry.Prelude.{
  ℕ, String, Bool, true, false, not, ◌&&◌, ◌||◌, List, [], ◌∷◌, Option, none, some, ◌==◌, Time,
  Table, entry, assign, delete, has_entry, if◌then◌else◌,
}
use codex_auto_retry.Model.{FailureClass, ThreadState, FileCursor}
use codex_auto_retry.Config.{Config}
use codex_auto_retry.Thread.{Reply, zero_thread}
use codex_auto_retry.Thread.Queue.{relimit, reopen_stopped}
use codex_auto_retry.Thread.Awaiting.{expire_unacknowledged}
use codex_auto_retry.Thread.Control.{ControlAction, apply_control_command, reconcile_startup_state}

pub data RetryJobKind : Type 0 where
  job_recovery job_goal_block : RetryJobKind

pub record RetryJob : Type 0 where
  pub kind : RetryJobKind
  pub thread_id : String
  pub failed_turn_id : String
  pub failed_at : Time
  pub origin_turn_started_at : Time
  pub event_key : String
  pub failure_class : FailureClass
  pub codex_home : String
  pub rollout_path : String
  pub attempt : ℕ
  pub max_attempts : ℕ
  pub consecutive_retry : ℕ
  pub max_consecutive : ℕ
  pub dispatch_failures : ℕ
  pub parent_notified : Bool
  pub goal_limit_restart : Bool
  pub recovery_event_id : String

-- The daemon with its `RuntimeState`. `active_ctx` tells of each job that may be cancelled whether it
-- has been. Paths, the logger, the runner and the writers of the two files are not fields here: they
-- are inputs of the operations that use them.
pub record Daemon : Type 0 where
  pub config : Config
  pub started_at : Time
  pub initialized : Bool
  pub files : Table FileCursor
  pub threads : Table ThreadState
  pub processed_events : Table Time
  pub active : Table RetryJob
  pub active_ctx : Table Bool
  pub last_scan : Time
  pub last_error : String
  pub controller_state : String
  pub last_controller_probe : Time
  pub paused : Bool
  pub memory_usage_bytes : ℕ
  pub memory_guard_triggered : Bool
  pub shared_memory_bytes : ℕ
  pub shared_memory_guard_triggered : Bool
  pub last_shared_memory_check : Time
  pub state_write_deferred : Bool
  pub status_write_deferred : Bool

-- `d.state.Threads[threadID]`, the zero value where there is none.
abbrev pub thread_or_zero : Option ThreadState → ThreadState
thread_or_zero none = zero_thread
thread_or_zero (some thread) = thread

abbrev pub thread_of : Daemon → String → ThreadState
thread_of d id = thread_or_zero (entry d.threads id)

abbrev pub cancel_job : Table Bool → String → Table Bool
cancel_job contexts id = elim (entry contexts id) [
  | none ↦ contexts
  | some _ ↦ assign contexts id true
]

abbrev pub write_thread : Table ThreadState → String → Option ThreadState → Table ThreadState
write_thread threads id none = threads
write_thread threads id (some thread) = assign threads id thread

abbrev pub error_or : Option String → String → String
error_or none current = current
error_or (some error) current = error

unfoldable pub apply_reply : Daemon → String → Reply → Daemon
apply_reply d id reply = record d {
  threads = write_thread d.threads id reply.stored;
  active_ctx = if reply.cancels then cancel_job d.active_ctx id else d.active_ctx;
  last_error = error_or reply.error d.last_error;
}

-- `for threadID, thread := range d.state.Threads`: the body writes the entry that it is at, at most.
unfoldable pub over_threads : (String → ThreadState → Reply) → Daemon → Table ThreadState → Daemon
over_threads body d [] = d
over_threads body d ((id, thread) ∷ rest) =
    over_threads body (apply_reply d id (body id thread)) rest

abbrev pub each_thread : (String → ThreadState → Reply) → Daemon → Daemon
each_thread body d = over_threads body d d.threads

abbrev pub is_active : Daemon → String → Bool
is_active d id = has_entry d.active id

-- `reconcileStartupState`
unfoldable pub reconcile_startup : Time → Daemon → Daemon
reconcile_startup now d = each_thread (λ id thread. reconcile_startup_state now thread) d

-- What `loadOrCreateConfig` returns.
pub data Loaded : Type 0 where
  loaded : Config → Loaded
  load_error : String → Loaded

-- The part of `reloadConfigLocked` before its loop.
unfoldable pub install_config : Config → Daemon → Daemon
install_config config d =
    let fresh = not d.config.shared_app_server_enabled && config.shared_app_server_enabled in
    let state = d.controller_state in
    record d {
      config = config;
      shared_memory_guard_triggered = if fresh then false else d.shared_memory_guard_triggered;
      shared_memory_bytes = if fresh then 0 else d.shared_memory_bytes;
      last_shared_memory_check = if fresh then 0 else d.last_shared_memory_check;
      controller_state =
          if not config.shared_app_server_enabled
          then (if state == "ready" || state == "starting"
              then "shared_app_server_disabled"
              else state)
          else if state == "shared_app_server_disabled"
          then "starting"
          else state;
    }

unfoldable pub reload_config : Loaded → Time → Daemon → Daemon
reload_config (load_error message) now d = record d { last_error = message }
reload_config (loaded config) now d =
    each_thread (λ id thread. relimit config now thread) (install_config config d)

-- `reopenRestartRequiredLocked`
unfoldable pub reopen_restart_required : Time → Daemon → Daemon
reopen_restart_required now d =
    let reopened =
      each_thread (λ id thread. reopen_stopped d.config now (is_active d id) thread) d in
    if d.paused then d else reopened

-- `expireUnacknowledgedLocked`
unfoldable pub expire_awaiting : Time → Daemon → Daemon
expire_awaiting now d =
    each_thread (λ id thread. expire_unacknowledged d.config now (is_active d id) thread) d

-- A command with the error of removing its file, if there is one.
pub record ControlCommand : Type 0 where
  pub action : ControlAction
  pub thread_id : String
  pub remove_error : Option String

unfoldable pub apply_command : Time → ControlCommand → Daemon → Daemon
apply_command now command d = elim (entry d.threads command.thread_id) [
  | none ↦ d
  | some thread ↦
      apply_reply d command.thread_id (apply_control_command d.config command.action now thread)
]

unfoldable pub note_error : Option String → Daemon → Daemon
note_error error d = record d { last_error = error_or error d.last_error }

-- The valid commands in the order of their file names.
unfoldable pub apply_commands : Time → List ControlCommand → Daemon → Daemon
apply_commands now [] d = d
apply_commands now (command ∷ rest) d =
    apply_commands now rest (note_error command.remove_error (apply_command now command d))

-- The invalid commands, by the error of removing each file.
unfoldable pub discard_invalid : List (Option String) → Daemon → Daemon
discard_invalid [] d = d
discard_invalid (error ∷ rest) d = discard_invalid rest (note_error error d)

-- What the control files give: the pause flag with the invalid and the valid commands, or the error of
-- reading the flag or the commands.
pub data Controls : Type 0 where
  controls : Bool → List (Option String) → List ControlCommand → Controls
  no_state : String → Controls
  no_commands : Bool → String → Controls

-- `refreshControlsLocked`
unfoldable pub refresh_controls : Time → Controls → Daemon → Daemon
refresh_controls now (controls paused invalid commands) d =
    apply_commands now commands (discard_invalid invalid (record d { paused = paused }))
refresh_controls now (no_state message) d = record d { last_error = message }
refresh_controls now (no_commands paused message) d = record d {
  paused = paused;
  last_error = message;
}
