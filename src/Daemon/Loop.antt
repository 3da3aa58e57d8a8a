-- ===== src/Daemon/Loop.antt =====
-- The loops over `d.state.Threads` of scripts/source/retry_state.go, daemon.go and
-- transport_recovery.go treat each thread by itself, so the order of a map's iteration does not matter.
use codex_auto_retry.Prelude.{
  Bool, true, false, Time, ◌∙◌, ◌≡◌, refl, String, [], ◌∷◌, Option, none, some, arith, ◌==◌, eq_iff,
  Table, entry, entry-assign, Fresh, UniqueKeys, Bool-cases, inl, inr, if◌then◌else◌,
}
use codex_auto_retry.Model.{ThreadState}
use codex_auto_retry.Thread.{Reply}
use codex_auto_retry.Config.{Config}
use codex_auto_retry.Thread.Control.{reconcile_startup_state}
use codex_auto_retry.Thread.Queue.{relimit, reopen_stopped}
use codex_auto_retry.Thread.Awaiting.{expire_unacknowledged}
use codex_auto_retry.Daemon.{
  Daemon, write_thread, apply_reply, over_threads, each_thread, is_active, loaded, install_config,
  reconcile_startup, reload_config, reopen_restart_required, expire_awaiting,
}

abbrev pub stored_or : Option ThreadState → Option ThreadState → Option ThreadState
stored_or none current = current
stored_or (some thread) current = some thread

-- What the loop makes of a thread, given the thread as the loop met it and as it is now.
abbrev pub looped :
    (ThreadState → Reply) → Option ThreadState → Option ThreadState → Option ThreadState
looped body none current = current
looped body (some thread) current = stored_or (body thread).stored current

pub write_thread-entry :
    (threads : Table ThreadState) (k j : String) (stored : Option ThreadState)
    → entry (write_thread threads k stored) j
      ≡ (if j == k then stored_or stored (entry threads j) else entry threads j)
write_thread-entry threads k j none = ground arith
write_thread-entry threads k j (some t) = entry-assign threads k j t

Fresh-entry : (m : Table ThreadState) (k : String) → Fresh k m → entry m k ≡ none
unfolding entry
Fresh-entry [] k f = refl
Fresh-entry ((i, w) ∷ rest) k f = rw f.0 (Fresh-entry rest k f.1)

over_threads-entry :
    (body : String → ThreadState → Reply) (d : Daemon) (part : Table ThreadState) (id : String)
    → UniqueKeys part
    → entry (over_threads body d part).threads id
      ≡ looped (body id) (entry part id) (entry d.threads id)
unfolding over_threads apply_reply entry
over_threads-entry body d [] id u = refl
over_threads-entry body d ((k, t) ∷ rest) id u =
    let next = over_threads-entry body (apply_reply d k (body k t)) rest id u.1 in
    let written = write_thread-entry d.threads k id (body k t).stored in
    elim (Bool-cases (id == k)) [
      | inl hit ↦
          let same : id ≡ k = (eq_iff id k).0 hit in
          rw (next, written, hit, same, Fresh-entry rest k u.0)
      | inr miss ↦ rw (next, written, miss)
    ]

-- A loop over the threads gives each thread the reply of its own body to its own state, and nothing else.
pub each_thread-entry :
    (body : String → ThreadState → Reply) (d : Daemon) (id : String)
    → UniqueKeys d.threads
    → entry (each_thread body d).threads id
      ≡ looped (body id) (entry d.threads id) (entry d.threads id)
each_thread-entry body d id u = over_threads-entry body d d.threads id u

-- What a loop leaves of a thread that is there or not, by its body.
abbrev pub own_reply : (ThreadState → Reply) → Option ThreadState → Option ThreadState
own_reply body thread = looped body thread thread

chosen-entry :
    (b : Bool) (x y : Daemon) (id : String) {t u : Option ThreadState}
    → entry x.threads id ≡ t
    → entry y.threads id ≡ u
    → entry (if b then x else y).threads id ≡ (if b then t else u)
chosen-entry true x y id e f = e
chosen-entry false x y id e f = f

-- The loops at the start, after a reload, over the stopped retries and over the awaited ones give each
-- thread the reply to its own state, whatever the order of the threads in the table: another table with
-- the same entries, each once, gives the same, and no other thread has a part in it.
pub loops-any_order :
    (now : Time) (config : Config) (d : Daemon) (reordered : Table ThreadState) (id : String)
    → UniqueKeys reordered
    → entry reordered id ≡ entry d.threads id
    → let e = record d { threads = reordered } in
      let thread = entry d.threads id in
      (entry (reconcile_startup now e).threads id
        ≡ own_reply (λ t. reconcile_startup_state now t) thread)
      × (entry (reload_config (loaded config) now e).threads id
          ≡ own_reply (λ t. relimit config now t) thread)
      × (entry (reopen_restart_required now e).threads id ≡ (
          if d.paused
          then thread
          else own_reply (λ t. reopen_stopped d.config now (is_active d id) t) thread))
      × (entry (expire_awaiting now e).threads id
          ≡ own_reply (λ t. expire_unacknowledged d.config now (is_active d id) t) thread)
unfolding reconcile_startup reload_config install_config reopen_restart_required expire_awaiting
loops-any_order now config d reordered id unique same =
    let e = record d { threads = reordered } in
    let reopened =
      each_thread-entry (λ i t. reopen_stopped d.config now (is_active d i) t) e id unique in
    (
      each_thread-entry (λ i t. reconcile_startup_state now t) e id unique ∙ rw same refl,
      each_thread-entry (λ i t. relimit config now t) (install_config config e) id unique
          ∙ rw same refl,
      chosen-entry d.paused e (each_thread (λ i t. reopen_stopped d.config now (is_active d i) t) e)
          id same (reopened ∙ rw same refl),
      each_thread-entry (λ i t. expire_unacknowledged d.config now (is_active d i) t) e id unique
          ∙ rw same refl,
    )
