-- ===== src/Daemon/Dispatch.antt =====
-- `dispatchDueLocked` of scripts/source/daemon.go: which jobs a tick starts.
use codex_auto_retry.Prelude.{
  ℕ, zero, suc, ◌-◌, String, Bool, false, not, ◌&&◌, ◌||◌, List, [], ◌∷◌, ◌++◌, Option, none, some,
  ◌==◌, Time, Table, before, after, assign, length, eqb, if◌then◌else◌,
}
use codex_auto_retry.Model.{ThreadState, PendingRetry, StoppedRetry, GoalStopRequest, class_none}
use codex_auto_retry.Policy.{controller_failure_needs_fail_open}
use codex_auto_retry.Digest.{Digest, recovery_event_id}
use codex_auto_retry.Thread.Queue.{
  Selection, replies, candidate, select_due, dispatch_thread, stop_due,
}
use codex_auto_retry.Daemon.{
  Daemon, RetryJob, job_recovery, job_goal_block, thread_of, apply_reply, each_thread, is_active,
}

-- A thread's identifier with the item that is due, sorted by its time.
pub record Due {ℓ} (A : Type ℓ) : Type ℓ where
  pub thread_id : String
  pub item : A

module _ {ℓ} {A : Type ℓ} (due_at : A → Time) where
  unfoldable pub insert_due : Due A → List (Due A) → List (Due A)
  insert_due x [] = x ∷ []
  insert_due x (y ∷ rest) =
      if before (due_at y.item) (due_at x.item) then y ∷ insert_due x rest else x ∷ y ∷ rest

  -- `sort.Slice(items, by DueAt)`; the order of equal times is not specified there.
  unfoldable pub sort_due : List (Due A) → List (Due A)
  sort_due [] = []
  sort_due (x ∷ rest) = insert_due x (sort_due rest)

abbrev pub goal_stop_due : Daemon → Time → String → ThreadState → Option GoalStopRequest
goal_stop_due d now id thread = elim thread.goal_stop [
  | none ↦ none
  | some request ↦ if after request.due_at now || is_active d id then none else some request
]

abbrev pub cons_some {ℓ} : {A : Type ℓ} → String → Option A → List (Due A) → List (Due A)
cons_some id none rest = rest
cons_some id (some item) rest = record { thread_id = id; item = item } ∷ rest

unfoldable pub goal_stops : Daemon → Time → Table ThreadState → List (Due GoalStopRequest)
goal_stops d now [] = []
goal_stops d now ((id, thread) ∷ rest) =
    cons_some id (goal_stop_due d now id thread) (goal_stops d now rest)

abbrev empty_job : RetryJob
empty_job = record {
  kind = job_goal_block;
  thread_id = "";
  failed_turn_id = "";
  failed_at = 0;
  origin_turn_started_at = 0;
  event_key = "";
  failure_class = class_none;
  codex_home = "";
  rollout_path = "";
  attempt = 0;
  max_attempts = 0;
  consecutive_retry = 0;
  max_consecutive = 0;
  dispatch_failures = 0;
  parent_notified = false;
  goal_limit_restart = false;
  recovery_event_id = "";
}

abbrev pub describe_stopped : Option StoppedRetry → RetryJob → RetryJob
describe_stopped none job = job
describe_stopped (some stopped) job = record job {
  failure_class = stopped.failure_class;
  attempt = stopped.attempts;
  codex_home = stopped.codex_home;
  rollout_path = stopped.rollout_path;
}

unfoldable pub goal_block_job : Daemon → Due GoalStopRequest → RetryJob
goal_block_job d due = describe_stopped (thread_of d due.thread_id).stopped (record empty_job {
  kind = job_goal_block;
  thread_id = due.thread_id;
  event_key = due.item.event_key;
  dispatch_failures = due.item.dispatch_failures;
})

abbrev pub activate : Daemon → RetryJob → Daemon
activate d job = record d { active = assign d.active job.thread_id job }

-- The first loop over sorted items, with `available` places.
unfoldable pub start_goal_blocks : ℕ → List (Due GoalStopRequest) → Daemon → Daemon × List RetryJob
start_goal_blocks zero items d = (d, [])
start_goal_blocks (suc available) [] d = (d, [])
start_goal_blocks (suc available) (due ∷ rest) d =
    let job = goal_block_job d due in
    let (d', jobs) = start_goal_blocks available rest (activate d job) in (d', job ∷ jobs)

unfoldable pub no_transport : Daemon → Bool
no_transport d =
    not (d.controller_state == "official_ipc_ready")
    && (not d.config.shared_app_server_enabled
        || d.controller_state == "shared_app_server_disabled"
        || d.controller_state == "shared_app_server_config_invalid")

abbrev pub no_transport_reason : Daemon → String
no_transport_reason d =
    if controller_failure_needs_fail_open d.controller_state
      || d.controller_state == "codex_not_running"
    then d.controller_state
    else "shared_app_server_disabled"

-- The loop that collects the candidates; a thread that is none is changed on the way.
abbrev pub note_selection :
    String → Selection → Daemon × List (Due PendingRetry) → Daemon × List (Due PendingRetry)
note_selection id (replies reply) (d, found) = (apply_reply d id reply, found)
note_selection id (candidate pending) (d, found) =
    (d, record { thread_id = id; item = pending } ∷ found)

unfoldable pub collect_candidates :
    Daemon → Time → Table ThreadState → Daemon × List (Due PendingRetry)
collect_candidates d now [] = (d, [])
collect_candidates d now ((id, thread) ∷ rest) =
    note_selection id (select_due now (is_active d id) thread) (collect_candidates d now rest)

module _ (digest : Digest) (now : Time) where
  unfoldable pub recovery_job : Due PendingRetry → RetryJob
  recovery_job due = record {
    kind = job_recovery;
    thread_id = due.thread_id;
    failed_turn_id = due.item.failed_turn_id;
    failed_at = due.item.failed_at;
    origin_turn_started_at = due.item.origin_turn_started_at;
    event_key = due.item.event_key;
    failure_class = due.item.failure_class;
    codex_home = due.item.codex_home;
    rollout_path = due.item.rollout_path;
    attempt = due.item.attempt;
    max_attempts = due.item.max_attempts;
    consecutive_retry = due.item.consecutive_retry;
    max_consecutive = due.item.max_consecutive;
    dispatch_failures = due.item.dispatch_failures;
    parent_notified = due.item.parent_notified;
    goal_limit_restart = due.item.goal_limit_restart;
    recovery_event_id = recovery_event_id digest due.thread_id due.item.event_key;
  }

  abbrev pub start_recovery : Due PendingRetry → Daemon → Daemon
  start_recovery due d = record d {
    threads =
        assign d.threads due.thread_id
          (dispatch_thread d.config now due.item (thread_of d due.thread_id));
    active = assign d.active due.thread_id (recovery_job due);
  }

  -- `for _, item := range candidates[:available]`
  unfoldable pub start_recoveries : ℕ → List (Due PendingRetry) → Daemon → Daemon × List RetryJob
  start_recoveries zero items d = (d, [])
  start_recoveries (suc available) [] d = (d, [])
  start_recoveries (suc available) (due ∷ rest) d =
      let (d', jobs) = start_recoveries available rest (start_recovery due d) in
      (d', recovery_job due ∷ jobs)

  -- The function behind its first loop, with `available` places left.
  unfoldable pub dispatch_recoveries : ℕ → Daemon → Daemon × List RetryJob
  dispatch_recoveries available d =
      let stopped = each_thread (λ id thread. stop_due now (no_transport_reason d) thread) d in
      let (collected, found) = collect_candidates d now d.threads in
      if eqb available 0 || d.paused
      then (d, [])
      else if no_transport d
      then (stopped, [])
      else start_recoveries available (sort_due (λ p. p.due_at) found) collected

  unfoldable pub dispatch_due : Daemon → Daemon × List RetryJob
  dispatch_due d =
      let available = d.config.max_parallel_retries - length d.active in
      let (blocked, blocks) =
        start_goal_blocks available (sort_due (λ r. r.due_at) (goal_stops d now d.threads)) d in
      let (dispatched, recoveries) = dispatch_recoveries (available - length blocks) blocked in
      if eqb available 0 then (d, []) else (dispatched, blocks ++ recoveries)
