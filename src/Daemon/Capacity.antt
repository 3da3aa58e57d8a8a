-- ===== src/Daemon/Capacity.antt =====
-- `dispatchDueLocked` of scripts/source/daemon.go keeps to the places of `max_parallel_retries`.
use Prim.Native.Nat.{max}
use codex_auto_retry.Prelude.{
  ℕ, zero, suc, ◌+◌, ◌-◌, ◌≤◌, ◌≡◌, refl, ap, Option, none, some, ◌∙◌, arith, String, true, List,
  [], ◌∷◌, ◌++◌, Time, Table, assign, length, All,
}
use codex_auto_retry.Model.{ThreadState, GoalStopRequest, PendingRetry, StoppedRetry}
use codex_auto_retry.Digest.{Digest}
use codex_auto_retry.Thread.{Reply}
use codex_auto_retry.Thread.Queue.{Selection, replies, candidate, select_due, stop_due}
use codex_auto_retry.Daemon.{
  Daemon, RetryJob, job_goal_block, is_active, thread_of, apply_reply, over_threads,
}
use codex_auto_retry.Daemon.Dispatch.{
  Due, activate, describe_stopped, goal_block_job, start_goal_blocks, collect_candidates,
  note_selection, start_recoveries, dispatch_recoveries, dispatch_due, start_recovery, recovery_job,
  no_transport_reason, sort_due, goal_stops,
}

pub length-append {ℓ} : {A : Type ℓ} (xs ys : List A) → length (xs ++ ys) ≡ length xs + length ys
length-append [] ys = omega arith
length-append (x ∷ xs) ys = omega (arith, length-append xs ys)

length-assign {ℓ} :
    {V : Type ℓ} (m : Table V) (k : String) (v : V) → length (assign m k v) ≤ suc (length m)
unfolding assign
length-assign [] k v = ground arith
length-assign ((i, w) ∷ rest) k v = ground (arith, length-assign rest k v)

-- `n` places suffice for the jobs that turn one table of active jobs into another.
pub record FitsIn (n : ℕ) (before after : Table RetryJob) (jobs : List RetryJob) : Type 0 where
  pub started : length jobs ≤ n
  pub active : length after ≤ length before + length jobs

start_goal_blocks-FitsIn :
    (n : ℕ) (items : List (Due GoalStopRequest)) (d : Daemon)
    → let (d', jobs) = start_goal_blocks n items d in FitsIn n d.active d'.active jobs
unfolding start_goal_blocks
start_goal_blocks-FitsIn zero items d = ground arith
start_goal_blocks-FitsIn (suc n) [] d = ground arith
start_goal_blocks-FitsIn (suc n) (due ∷ rest) d =
    let job = goal_block_job d due in
    let h = start_goal_blocks-FitsIn n rest (activate d job) in
    let g = length-assign d.active job.thread_id job in
    record { started = omega (arith, h.started); active = omega (arith, h.active, g) }

note_selection-active :
    (id : String) (s : Selection) (d : Daemon) (found : List (Due PendingRetry))
    → (note_selection id s (d, found)).0.active ≡ d.active
unfolding apply_reply
note_selection-active id (replies reply) d found = refl
note_selection-active id (candidate pending) d found = refl

collect_candidates-active :
    (d : Daemon) (now : Time) (threads : Table ThreadState)
    → (collect_candidates d now threads).0.active ≡ d.active
unfolding collect_candidates
collect_candidates-active d now [] = refl
collect_candidates-active d now ((id, t) ∷ rest) =
    note_selection-active id (select_due now (is_active d id) t) _ _
    ∙ collect_candidates-active d now rest

over_threads-active :
    (body : String → ThreadState → Reply) (d : Daemon) (part : Table ThreadState)
    → (over_threads body d part).active ≡ d.active
unfolding over_threads apply_reply
over_threads-active body d [] = refl
over_threads-active body d ((id, t) ∷ rest) =
    over_threads-active body (apply_reply d id (body id t)) rest

module _ (digest : Digest) (now : Time) where
  start_recoveries-FitsIn :
      (n : ℕ) (items : List (Due PendingRetry)) (d : Daemon)
      → let (d', jobs) = start_recoveries digest now n items d in FitsIn n d.active d'.active jobs
  unfolding start_recoveries
  start_recoveries-FitsIn zero items d = ground arith
  start_recoveries-FitsIn (suc n) [] d = ground arith
  start_recoveries-FitsIn (suc n) (due ∷ rest) d =
      let h = start_recoveries-FitsIn n rest (start_recovery digest now due d) in
      let g = length-assign d.active due.thread_id (recovery_job digest now due) in
      record { started = omega (arith, h.started); active = omega (arith, h.active, g) }

  dispatch_recoveries-FitsIn :
      (n : ℕ) (d : Daemon)
      → let (d', jobs) = dispatch_recoveries digest now n d in FitsIn n d.active d'.active jobs
  unfolding dispatch_recoveries
  dispatch_recoveries-FitsIn n d =
      let stop = λ (id : String) (t : ThreadState). stop_due now (no_transport_reason d) t in
      let collected = collect_candidates d now d.threads in
      ground (
        arith,
        over_threads-active stop d d.threads,
        collect_candidates-active d now d.threads,
        start_recoveries-FitsIn n (sort_due (λ p. p.due_at) collected.1) collected.0,
      )

  -- A tick starts at most as many jobs as places are free, and afterwards no more places are taken than
  -- the larger of `max_parallel_retries` and the number taken before.
  pub dispatch_due-capacity :
      (d : Daemon)
      → let (d', jobs) = dispatch_due digest now d in
        (length jobs ≤ d.config.max_parallel_retries - length d.active)
        × (length d'.active ≤ max d.config.max_parallel_retries (length d.active))
  unfolding dispatch_due
  dispatch_due-capacity d =
      let available = d.config.max_parallel_retries - length d.active in
      let (blocked, blocks) =
        start_goal_blocks available (sort_due (λ r. r.due_at) (goal_stops d now d.threads)) d in
      let (dispatched, recoveries) =
        dispatch_recoveries digest now (available - length blocks) blocked in
      let b =
        start_goal_blocks-FitsIn available (sort_due (λ r. r.due_at) (goal_stops d now d.threads))
          d in
      let r = dispatch_recoveries-FitsIn (available - length blocks) blocked in
      ground (arith, b.started, b.active, r.started, r.active, length-append blocks recoveries)

describe_stopped-kind :
    (s : Option StoppedRetry) (job : RetryJob) → (describe_stopped s job).kind ≡ job.kind
describe_stopped-kind none job = refl
describe_stopped-kind (some s) job = refl

start_goal_blocks-kind :
    (n : ℕ) (items : List (Due GoalStopRequest)) (d : Daemon)
    → let (d', jobs) = start_goal_blocks n items d in
      All (λ job. job.kind ≡ job_goal_block) jobs
      × (d'.threads ≡ d.threads)
      × (d'.paused ≡ d.paused)
unfolding start_goal_blocks goal_block_job
start_goal_blocks-kind zero items d = (tt, refl, refl)
start_goal_blocks-kind (suc n) [] d = (tt, refl, refl)
start_goal_blocks-kind (suc n) (due ∷ rest) d =
    let job = goal_block_job d due in
    let h = start_goal_blocks-kind n rest (activate d job) in
    ((describe_stopped-kind (thread_of d due.thread_id).stopped _, h.0), h.1, h.2)

append_nil {ℓ} : {A : Type ℓ} (xs : List A) → xs ++ [] ≡ xs
append_nil [] = refl
append_nil (x ∷ xs) = ap (λ ys. x ∷ ys) (append_nil xs)

-- While the daemon is paused, a tick sends no retry and changes no thread: the only jobs it starts mark
-- goals as blocked.
pub dispatch_due-paused :
    (digest : Digest) (now : Time) (d : Daemon)
    → d.paused ≡ true
    → let (d', jobs) = dispatch_due digest now d in
      (d'.threads ≡ d.threads) × All (λ job. job.kind ≡ job_goal_block) jobs
unfolding dispatch_due dispatch_recoveries
dispatch_due-paused digest now d paused =
    let available = d.config.max_parallel_retries - length d.active in
    let items = sort_due (λ r. r.due_at) (goal_stops d now d.threads) in
    let blocks = (start_goal_blocks available items d).1 in
    let (kinds, threads, same) = start_goal_blocks-kind available items d in
    ground (arith, paused, append_nil blocks, kinds, threads, same)
