-- ===== src/Thread/Lifecycle.antt =====
-- `reconcileAwaitingLifecycle` of scripts/source/daemon.go, for one thread: the choice of what to
-- probe, and what the answer of a probe does.
use codex_auto_retry.Prelude.{
  ℕ, ◌+◌, ◌-◌, ◌*◌, String, Bool, not, ◌&&◌, ◌||◌, Option, none, some, [], ◌∷◌, ◌==◌, ltb, leb,
  if◌then◌else◌, Time, second, is_zero,
}
use codex_auto_retry.Model.{ThreadState, AwaitingRetry}
use codex_auto_retry.Config.{Config}
use codex_auto_retry.Policy.{controller_failure_needs_action, one_of}
use codex_auto_retry.Thread.{Reply, no_change, stores}
use codex_auto_retry.Thread.Awaiting.{
  stop_awaiting_for_controller, advance_inactive_awaiting, or_dispatch_start,
}

abbrev pub awaiting_lifecycle_confirmations : ℕ
awaiting_lifecycle_confirmations = 2

abbrev pub awaiting_lifecycle_probe_interval : ℕ
awaiting_lifecycle_probe_interval = 5 * second

pub record Candidate : Type 0 where
  pub event_key : String
  pub turn_id : String
  pub codex_home : String

-- The tests that skip a thread.
unfoldable pub skips_probe : Config → Time → AwaitingRetry → Bool
skips_probe config now awaiting =
    awaiting.retry_turn_id == ""
    || is_zero (or_dispatch_start awaiting)
    || ltb (now - or_dispatch_start awaiting) (config.start_ack_timeout_seconds * second)
    || (not (is_zero awaiting.last_lifecycle_check_at)
        && ltb (now - awaiting.last_lifecycle_check_at) awaiting_lifecycle_probe_interval)

-- The thread with its time of probing, and the candidate.
unfoldable pub choose_candidate : Config → Time → ThreadState → Option (ThreadState × Candidate)
choose_candidate config now thread = elim thread.awaiting [
  | none ↦ none
  | some awaiting ↦
      if skips_probe config now awaiting
      then none
      else some (
        record thread { awaiting = some (record awaiting { last_lifecycle_check_at = now }) },
        record {
          event_key = awaiting.event_key;
          turn_id = awaiting.retry_turn_id;
          codex_home = awaiting.codex_home;
        },
      )
]

unfoldable pub retry_thread_is_active : String → Bool
retry_thread_is_active status = one_of status ("active" ∷ "running" ∷ "in_progress" ∷ [])

-- The answer of `RetryThreadStatus`: a status, or the reason code of its error.
pub data Probe : Type 0 where
  status failure : String → Probe

unfoldable pub probe_failed : Config → Time → ThreadState → AwaitingRetry → String → Reply
probe_failed config now thread awaiting reason =
    let failures = awaiting.dispatch_failures + 1 in
    if controller_failure_needs_action reason || leb config.controller_failure_limit failures
    then stop_awaiting_for_controller thread now reason
    else stores
        (record thread { awaiting = some (record awaiting { dispatch_failures = failures }) })

unfoldable pub probe_answered : Config → Time → ThreadState → AwaitingRetry → String → Reply
probe_answered config now thread awaiting answer =
    let checks = awaiting.lifecycle_checks + 1 in
    let checked = record thread {
      awaiting = some (record awaiting { dispatch_failures = 0; lifecycle_checks = checks });
    } in
    if retry_thread_is_active answer
    then stores (record thread {
      awaiting = some (record awaiting { dispatch_failures = 0; lifecycle_checks = 0 });
    })
    else if ltb checks awaiting_lifecycle_confirmations
    then stores checked
    else advance_inactive_awaiting config now checked

-- After the probe the thread is looked up again: another retry may have taken its place.
unfoldable pub apply_probe : Config → Time → Candidate → Probe → ThreadState → Reply
apply_probe config now candidate probe thread = elim thread.awaiting [
  | none ↦ no_change
  | some awaiting ↦
      if not (awaiting.event_key == candidate.event_key)
        || not (awaiting.retry_turn_id == candidate.turn_id)
      then no_change
      else elim probe [
        | status answer ↦ probe_answered config now thread awaiting answer
        | failure reason ↦ probe_failed config now thread awaiting reason
      ]
]
