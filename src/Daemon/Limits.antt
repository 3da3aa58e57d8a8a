-- ===== src/Daemon/Limits.antt =====
-- The limits after a reload of the configuration (`reloadConfigLocked` of scripts/source/retry_state.go).
use codex_auto_retry.Prelude.{
  ◌≤◌, ◌≡◌, arith, String, some, Time, entry, UniqueKeys, Option-cases, inl, inr,
}
use codex_auto_retry.Model.{ThreadState, PendingRetry, FailureClass}
use codex_auto_retry.Config.{Config}
use codex_auto_retry.Policy.{retry_limits}
use codex_auto_retry.Thread.{stop_pending_retry}
use codex_auto_retry.Thread.Queue.{relimit}
use codex_auto_retry.Thread.Budget.{pending_of}
use codex_auto_retry.Daemon.{Daemon, loaded, install_config, reload_config}
use codex_auto_retry.Daemon.Loop.{looped, each_thread-entry}

-- A waiting retry has the limits of its class, and keeps to them.
pub record IsWithinLimits (config : Config) (p : PendingRetry) : Type 0 where
  pub limits : (p.max_attempts, p.max_consecutive) ≡ retry_limits p.failure_class config
  pub attempt : p.attempt ≤ (retry_limits p.failure_class config).0
  pub consecutive : p.consecutive_retry ≤ (retry_limits p.failure_class config).1
  pub attempt_most : p.attempt ≤ config.max_recovery_attempts
  pub consecutive_most : p.consecutive_retry ≤ config.max_consecutive_retries

retry_limits-le :
    (c : FailureClass) (config : Config)
    → ((retry_limits c config).0 ≤ config.max_recovery_attempts)
      × ((retry_limits c config).1 ≤ config.max_consecutive_retries)
unfolding retry_limits
retry_limits-le c config = ground arith

relimit-IsWithinLimits :
    (config : Config) (now : Time) (t : ThreadState) (p : PendingRetry)
    → pending_of (looped (λ u. relimit config now u) (some t) (some t)) ≡ some p
    → IsWithinLimits config p
unfolding relimit stop_pending_retry
relimit-IsWithinLimits config now t p e = ground (arith, e, retry_limits-le p.failure_class config)

-- After a reload, no thread waits for a retry beyond the limits of the new configuration: each waiting
-- retry has the limits of its class, and its counters keep to them and to the configured maxima. Every
-- thread stands once in the table.
pub reload_config-IsWithinLimits :
    (config : Config) (now : Time) (d : Daemon) (id : String) (p : PendingRetry)
    → UniqueKeys d.threads
    → pending_of (entry (reload_config (loaded config) now d).threads id) ≡ some p
    → IsWithinLimits config p
unfolding reload_config install_config
reload_config-IsWithinLimits config now d id p unique e =
    let point =
      each_thread-entry (λ i t. relimit config now t) (install_config config d) id unique in
    let found = rw point at e in
    elim (Option-cases (entry d.threads id)) [
      | inl missing ↦ absurd (cc)
      | inr (t, there) ↦ relimit-IsWithinLimits config now t p (rw there at found)
    ]
