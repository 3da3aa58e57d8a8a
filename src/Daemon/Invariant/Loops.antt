-- ===== src/Daemon/Invariant/Loops.antt =====
-- The loops over the threads, of scripts/source/retry_state.go and daemon.go, keep every thread
-- well-formed.
use codex_auto_retry.Prelude.{
  String, Bool, true, false, if◌then◌else◌, List, [], ◌∷◌, Option, none, some, Time, Table, All,
  entry, assign-All, assign-UniqueKeys, UniqueKeys, entry-All, Option-cases, inl, inr,
}
use codex_auto_retry.Model.{ThreadState}
use codex_auto_retry.Thread.{Reply}
use codex_auto_retry.Thread.WellFormed.{
  IsWellFormed, Keeps, StoresWellFormed, zero_thread-IsWellFormed,
}
use codex_auto_retry.Thread.WellFormed.Commands.{
  apply_control_command-Keeps, reconcile_startup_state-Keeps, expire_unacknowledged-Keeps,
}
use codex_auto_retry.Thread.WellFormed.Queue.{relimit-Keeps, reopen_stopped-Keeps}
use codex_auto_retry.Daemon.{
  Daemon, write_thread, thread_of, apply_reply, over_threads, is_active, reconcile_startup, Loaded,
  loaded, load_error, install_config, reload_config, reopen_restart_required, expire_awaiting,
  ControlCommand, apply_command, apply_commands, note_error, discard_invalid, Controls, controls,
  no_state, no_commands, refresh_controls,
}

abbrev pub WellFormedThreads : Table ThreadState → Type 0
WellFormedThreads threads = All (λ e. IsWellFormed e.1) threads

-- Every thread of the daemon is well-formed, and has one entry.
abbrev pub AllWellFormed : Daemon → Type 0
AllWellFormed d = WellFormedThreads d.threads × UniqueKeys d.threads

pub choose-AllWellFormed :
    (b : Bool) (d d' : Daemon)
    → AllWellFormed d
    → AllWellFormed d'
    → AllWellFormed (if b then d else d')
choose-AllWellFormed true d d' h k = h
choose-AllWellFormed false d d' h k = k

pub write_thread-keeps :
    (threads : Table ThreadState) (id : String) (stored : Option ThreadState)
    → WellFormedThreads threads × UniqueKeys threads
    → StoresWellFormed stored
    → WellFormedThreads (write_thread threads id stored)
      × UniqueKeys (write_thread threads id stored)
write_thread-keeps threads id none h k = h
write_thread-keeps threads id (some thread) h k =
    (assign-All IsWellFormed threads id thread h.0 k, assign-UniqueKeys threads id thread h.1)

pub apply_reply-AllWellFormed :
    (d : Daemon) (id : String) (reply : Reply)
    → AllWellFormed d
    → Keeps reply
    → AllWellFormed (apply_reply d id reply)
unfolding apply_reply
apply_reply-AllWellFormed d id reply h k = write_thread-keeps d.threads id reply.stored h k

pub over_threads-AllWellFormed :
    (body : String → ThreadState → Reply)
    → ((id : String) (t : ThreadState) → IsWellFormed t → Keeps (body id t))
    → (d : Daemon) (threads : Table ThreadState) → AllWellFormed d
    → WellFormedThreads threads
    → AllWellFormed (over_threads body d threads)
unfolding over_threads
over_threads-AllWellFormed body keep d [] h k = h
over_threads-AllWellFormed body keep d ((id, t) ∷ rest) h k =
    over_threads-AllWellFormed body keep (apply_reply d id (body id t)) rest
      (apply_reply-AllWellFormed d id (body id t) h (keep id t k.0)) k.1

pub thread_of-IsWellFormed :
    (d : Daemon) (id : String) → AllWellFormed d → IsWellFormed (thread_of d id)
thread_of-IsWellFormed d id h = elim (Option-cases (entry d.threads id)) [
  | inl e ↦ rw e zero_thread-IsWellFormed
  | inr (t, e) ↦ rw e (entry-All IsWellFormed d.threads id t h.0 e)
]

pub reconcile_startup-AllWellFormed :
    (now : Time) (d : Daemon) → AllWellFormed d → AllWellFormed (reconcile_startup now d)
unfolding reconcile_startup
reconcile_startup-AllWellFormed now d h =
    over_threads-AllWellFormed _ (λ id t. reconcile_startup_state-Keeps now t) d d.threads h h.0

pub reload_config-AllWellFormed :
    (l : Loaded) (now : Time) (d : Daemon) → AllWellFormed d → AllWellFormed (reload_config l now d)
unfolding reload_config install_config
reload_config-AllWellFormed (load_error message) now d h = h
reload_config-AllWellFormed (loaded config) now d h =
    over_threads-AllWellFormed _ (λ id t. relimit-Keeps config now t) (install_config config d)
      d.threads h h.0

pub reopen_restart_required-AllWellFormed :
    (now : Time) (d : Daemon) → AllWellFormed d → AllWellFormed (reopen_restart_required now d)
unfolding reopen_restart_required
reopen_restart_required-AllWellFormed now d h = choose-AllWellFormed d.paused d _ h (
    over_threads-AllWellFormed _ (λ id t v. reopen_stopped-Keeps d.config now t v (is_active d id))
      d d.threads h h.0)

pub expire_awaiting-AllWellFormed :
    (now : Time) (d : Daemon) → AllWellFormed d → AllWellFormed (expire_awaiting now d)
unfolding expire_awaiting
expire_awaiting-AllWellFormed now d h =
    over_threads-AllWellFormed _
      (λ id t v. expire_unacknowledged-Keeps d.config now t v (is_active d id)) d d.threads h h.0

apply_command-AllWellFormed :
    (now : Time) (c : ControlCommand) (d : Daemon)
    → AllWellFormed d
    → AllWellFormed (apply_command now c d)
unfolding apply_command
apply_command-AllWellFormed now c d h = elim (Option-cases (entry d.threads c.thread_id)) [
  | inl e ↦ rw (e, apply_command) h
  | inr (t, e) ↦
      rw (e, apply_command)
        (apply_reply-AllWellFormed d c.thread_id _ h (
          apply_control_command-Keeps d.config c.action now t
            (entry-All IsWellFormed d.threads c.thread_id t h.0 e)))
]

apply_commands-AllWellFormed :
    (now : Time) (cs : List ControlCommand) (d : Daemon)
    → AllWellFormed d
    → AllWellFormed (apply_commands now cs d)
unfolding apply_commands note_error
apply_commands-AllWellFormed now [] d h = h
apply_commands-AllWellFormed now (c ∷ cs) d h =
    apply_commands-AllWellFormed now cs (note_error c.remove_error (apply_command now c d))
      (apply_command-AllWellFormed now c d h)

discard_invalid-AllWellFormed :
    (errors : List (Option String)) (d : Daemon)
    → AllWellFormed d
    → AllWellFormed (discard_invalid errors d)
unfolding discard_invalid note_error
discard_invalid-AllWellFormed [] d h = h
discard_invalid-AllWellFormed (e ∷ rest) d h = discard_invalid-AllWellFormed rest (note_error e d) h

pub refresh_controls-AllWellFormed :
    (now : Time) (c : Controls) (d : Daemon)
    → AllWellFormed d
    → AllWellFormed (refresh_controls now c d)
unfolding refresh_controls
refresh_controls-AllWellFormed now (controls paused invalid commands) d h =
    apply_commands-AllWellFormed now commands _
      (discard_invalid-AllWellFormed invalid (record d { paused = paused }) h)
refresh_controls-AllWellFormed now (no_state message) d h = h
refresh_controls-AllWellFormed now (no_commands paused message) d h = h
