-- ===== src/Controller/Status.antt =====
-- `RetryThreadStatus` of scripts/source/shared_controller.go: whether a thread runs, without a change to it.
use codex_auto_retry.Prelude.{
  String, false, not, ◌∷◌, List, Option, none, some, ◌==◌, if◌then◌else◌,
}
use codex_auto_retry.Runner.{ControllerError, controller_reason, server_unavailable}
use codex_auto_retry.Controller.{
  AppThread, loaded_listed, thread_read, refused, Log, Reply, answer, refusal, Codex, result, error,
  Step, more, stop,
}
use codex_auto_retry.Controller.Errors.{RpcError}
use codex_auto_retry.Controller.Preflight.{Transport, official_ipc, shared_server, preflight}
use codex_auto_retry.Controller.Dispatch.{has_item}

-- An error of the controller or of a call, or a thread without a status.
pub data StatusError : Type 0 where
  controller_error : ControllerError → StatusError
  call_error : RpcError → StatusError
  status_unavailable : StatusError

abbrev pub Probe : Type 0
Probe = Reply StatusError String × Log

module _ (codex : Codex) (id : String) where
  abbrev pub status_read : Option AppThread → Reply StatusError String
  status_read none = refusal status_unavailable
  status_read (some thread) =
      if thread.status == "" then refusal status_unavailable else answer thread.status

  abbrev pub after_read : Reply RpcError (Option AppThread) → Log → Probe
  after_read (refusal e) log = (refusal (call_error e), refused ∷ log)
  after_read (answer thread) log = (status_read thread, thread_read id thread ∷ log)

  abbrev pub after_listed : Reply RpcError (List String) → Log → Probe
  after_listed (refusal e) log = (refusal (call_error e), refused ∷ log)
  after_listed (answer listed) log =
      if not (has_item id listed)
      then (answer "unloaded", loaded_listed listed ∷ log)
      else after_read (codex.read_thread (loaded_listed listed ∷ log) id)
          (loaded_listed listed ∷ log)

  abbrev pub not_ready : String → StatusError
  not_ready reason =
      if reason == ""
      then controller_error server_unavailable
      else controller_error (controller_reason reason)

  abbrev pub probed_over : Step Transport → Log → Probe
  probed_over (stop (error e)) log = (refusal (controller_error e), log)
  probed_over (stop (result r)) log = (refusal (not_ready r.reason), log)
  probed_over (more official_ipc) log = (answer "active", log)
  probed_over (more shared_server) log =
      if not (codex.dial log)
      then (refusal (controller_error server_unavailable), log)
      else after_listed (codex.loaded log) log

  unfoldable pub retry_thread_status : String → Log → Probe
  unfolding preflight
  retry_thread_status codex_home log =
      if not (codex.supports_home codex_home)
      then (refusal (controller_error (controller_reason "codex_home_not_shared")), log)
      else (let r = preflight codex false log in probed_over r.0 r.1)
