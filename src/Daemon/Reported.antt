-- ===== src/Daemon/Reported.antt =====
-- What the status file says (`writeStatusLocked` and `persistStateLocked` of scripts/source/daemon.go,
-- `capabilityForControllerState` of model.go).
use codex_auto_retry.State.Prune.{keep_entries}
use codex_auto_retry.Prelude.{
  is_some, ◌+◌, ◌≤◌, ◌≡◌, refl, arith, ℕ, String, Bool, true, false, [], ◌∷◌, Table, length, ◌==◌,
}
use codex_auto_retry.Model.{ThreadState}
use codex_auto_retry.Daemon.{Daemon}
use codex_auto_retry.Daemon.Controller.{is_ready_state}
use codex_auto_retry.Daemon.Invariant.Loops.{AllWellFormed, WellFormedThreads}
use codex_auto_retry.Daemon.Status.{
  capability_for_controller_state, count_pending, count_awaiting, status_snapshot, persist_state,
}

-- The panel promises automatic recovery exactly in the states in which the controller counts as ready.
pub capability-automatic :
    (state : String) (shared_enabled : Bool)
    → (capability_for_controller_state state shared_enabled).automatic ≡ is_ready_state state
unfolding capability_for_controller_state
capability-automatic state shared_enabled = ground arith

counted-together :
    (m : Table ThreadState) → WellFormedThreads m → count_pending m + count_awaiting m ≤ length m
unfolding count_pending count_awaiting
counted-together [] w = omega arith
counted-together ((id, t) ∷ rest) w = ground (arith, w.0, counted-together rest w.1)

length-waiting :
    (m : Table ThreadState) → count_pending m ≡ length (keep_entries (λ t. is_some t.pending) m)
unfolding count_pending keep_entries
length-waiting [] = refl
length-waiting ((id, t) ∷ rest) = ground (arith, length-waiting rest)

length-awaited :
    (m : Table ThreadState) → count_awaiting m ≡ length (keep_entries (λ t. is_some t.awaiting) m)
unfolding count_awaiting keep_entries
length-awaited [] = refl
length-awaited ((id, t) ∷ rest) = ground (arith, length-awaited rest)

none_awaited :
    (m : Table ThreadState)
    → WellFormedThreads m
    → keep_entries (λ t. is_some t.awaiting) (keep_entries (λ t. is_some t.pending) m) ≡ []
unfolding keep_entries
none_awaited [] w = refl
none_awaited ((id, t) ∷ rest) w = ground (arith, w.0, none_awaited rest w.1)

-- While the daemon runs, the two numbers of the status are those of the threads that wait for a retry and
-- of those that await one; no thread is among both, so they add up to at most the number of threads.
-- Once it has ended, both are 0 and no automatic recovery is promised. The threads are well-formed.
pub status_snapshot-counts :
    (roots : ℕ) (d : Daemon)
    → AllWellFormed d
    → let running = status_snapshot true roots d in
      let ended = status_snapshot false roots d in
      let waiting = keep_entries (λ t. is_some t.pending) d.threads in
      let awaited = keep_entries (λ t. is_some t.awaiting) d.threads in
      (running.pending_retries ≡ length waiting)
      × (running.active_retries ≡ length awaited)
      × (keep_entries (λ t. is_some t.awaiting) waiting ≡ [])
      × (running.pending_retries + running.active_retries ≤ length d.threads)
      × (ended.pending_retries ≡ 0)
      × (ended.active_retries ≡ 0)
      × (ended.capability.automatic ≡ false)
unfolding status_snapshot capability_for_controller_state
status_snapshot-counts roots d h = (
  length-waiting d.threads,
  length-awaited d.threads,
  none_awaited d.threads h.0,
  counted-together d.threads h.0,
  refl,
  refl,
  refl,
)

-- A state that could not be written is reported, and the report is taken back by the first write that
-- succeeds; a message that has come in between stays.
pub persist_state-recovers :
    (d : Daemon) (message : String)
    → (message == "state_write_deferred") ≡ false
    → let deferred = persist_state false d in
      (deferred.last_error ≡ "state_write_deferred")
      × (persist_state true deferred ≡ record d { state_write_deferred = false; last_error = "" })
      × (persist_state true (record deferred { last_error = message })
          ≡ record d { state_write_deferred = false; last_error = message })
unfolding persist_state
persist_state-recovers d message other = ground (arith, other)
