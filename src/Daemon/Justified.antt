-- ===== src/Daemon/Justified.antt =====
-- Why a job that `dispatchDueLocked` of scripts/source/daemon.go starts may be started.
use codex_auto_retry.Prelude.{
  Option, none, some, refl, ℕ, zero, suc, ◌-◌, ◌≤◌, ◌≡◌, ◌⊎◌, arith, String, false, List, [], ◌∷◌,
  ◌++◌, Time, Table, entry, entry-assign, All, Found, UniqueKeys, UniqueKeys-Found, length, eqb,
  Bool-cases, Option-cases, inl, inr,
}
use codex_auto_retry.Model.{ThreadState, PendingRetry, GoalStopRequest, StoppedRetry}
use codex_auto_retry.Digest.{Digest}
use codex_auto_retry.Thread.Queue.{Selection, replies, candidate, select_due}
use codex_auto_retry.Thread.Redispatch.{IsDue, select_due-IsDue}
use codex_auto_retry.Daemon.{Daemon, RetryJob, job_goal_block, job_recovery, thread_of, is_active}
use codex_auto_retry.Daemon.Dispatch.{
  describe_stopped, Due, sort_due, goal_stops, goal_stop_due, goal_block_job, activate,
  start_goal_blocks, note_selection, collect_candidates, start_recovery, start_recoveries,
  dispatch_recoveries, dispatch_due, recovery_job,
}
use codex_auto_retry.Daemon.SortedDue.{sort_due-All}
use codex_auto_retry.Daemon.Progress.{start_goal_blocks-keeps}

start_goal_blocks-idle :
    (n : ℕ) (items : List (Due GoalStopRequest)) (d : Daemon) (id : String)
    → is_active (start_goal_blocks n items d).0 id ≡ false
    → is_active d id ≡ false
unfolding start_goal_blocks
start_goal_blocks-idle zero items d id idle = idle
start_goal_blocks-idle (suc n) [] d id idle = idle
start_goal_blocks-idle (suc n) (due ∷ rest) d id idle =
    let job = goal_block_job d due in
    let after : is_active (activate d job) id ≡ false =
      start_goal_blocks-idle n rest (activate d job) id idle in
    ground (arith, after, entry-assign d.active job.thread_id id job)

module _ (digest : Digest) (now : Time) (d : Daemon) where
  -- The thread has that entry, no job of it runs, and its goal is to be marked as blocked by now.
  pub record BlockIsDue (due : Due GoalStopRequest) : Type 0 where
    pub thread : ThreadState
    pub there : entry d.threads due.thread_id ≡ some thread
    pub asked : thread.goal_stop ≡ some due.item
    pub by_now : due.item.due_at ≤ now
    pub idle : is_active d due.thread_id ≡ false

  -- The thread has that entry, no job of it runs, and its retry may be sent.
  pub record RetryIsDue (due : Due PendingRetry) : Type 0 where
    pub thread : ThreadState
    pub there : entry d.threads due.thread_id ≡ some thread
    pub ready : IsDue now thread due.item
    pub idle : is_active d due.thread_id ≡ false

  -- The job marks that goal.
  pub record BlocksGoal (due : Due GoalStopRequest) (job : RetryJob) : Type 0 where
    pub kind : job.kind ≡ job_goal_block
    pub thread_id : job.thread_id ≡ due.thread_id
    pub event_key : job.event_key ≡ due.item.event_key

  -- The job sends that retry.
  pub record SendsRetry (due : Due PendingRetry) (job : RetryJob) : Type 0 where
    pub kind : job.kind ≡ job_recovery
    pub thread_id : job.thread_id ≡ due.thread_id
    pub event_key : job.event_key ≡ due.item.event_key
    pub failed_turn_id : job.failed_turn_id ≡ due.item.failed_turn_id
    pub attempt : job.attempt ≡ due.item.attempt

  described-BlocksGoal :
      (due : Due GoalStopRequest) (stopped : Option StoppedRetry) (job : RetryJob)
      → BlocksGoal due job
      → BlocksGoal due (describe_stopped stopped job)
  described-BlocksGoal due none job b = b
  described-BlocksGoal due (some s) job b = record {
    kind = b.kind;
    thread_id = b.thread_id;
    event_key = b.event_key;
  }

  goal_block_job-BlocksGoal :
      (e : Daemon) (due : Due GoalStopRequest) → BlocksGoal due (goal_block_job e due)
  unfolding goal_block_job
  goal_block_job-BlocksGoal e due =
      described-BlocksGoal due (thread_of e due.thread_id).stopped _
        (record { kind = refl; thread_id = refl; event_key = refl })

  recovery_job-SendsRetry : (due : Due PendingRetry) → SendsRetry due (recovery_job digest now due)
  unfolding recovery_job
  recovery_job-SendsRetry due = record {
    kind = refl;
    thread_id = refl;
    event_key = refl;
    failed_turn_id = refl;
    attempt = refl;
  }

  -- The job is that of a goal or of a retry which is due.
  abbrev pub Justified : RetryJob → Type 0
  Justified job =
      ((due : Due GoalStopRequest) × BlockIsDue due × BlocksGoal due job)
      ⊎ ((due : Due PendingRetry) × RetryIsDue due × SendsRetry due job)

  goal_stop_due-BlockIsDue :
      (id : String) (t : ThreadState) (request : GoalStopRequest)
      → entry d.threads id ≡ some t
      → goal_stop_due d now id t ≡ some request
      → BlockIsDue (record { thread_id = id; item = request })
  goal_stop_due-BlockIsDue id t request there h =
      let parts : (t.goal_stop ≡ some request) × (request.due_at ≤ now) × (is_active d id ≡ false) =
        ground (arith, h) in
      record { thread = t; there = there; asked = parts.0; by_now = parts.1; idle = parts.2 }

  goal_stops-BlockIsDue :
      (part : Table ThreadState) → Found d.threads part → All BlockIsDue (goal_stops d now part)
  unfolding goal_stops
  goal_stops-BlockIsDue [] f = tt
  goal_stops-BlockIsDue ((id, t) ∷ rest) f = elim (Option-cases (goal_stop_due d now id t)) [
    | inl e ↦ rw e (goal_stops-BlockIsDue rest f.1)
    | inr (request, e) ↦
        rw e (goal_stop_due-BlockIsDue id t request f.0 e, goal_stops-BlockIsDue rest f.1)
  ]

  start_goal_blocks-Justified :
      (n : ℕ) (items : List (Due GoalStopRequest)) (e : Daemon)
      → All BlockIsDue items
      → All Justified (start_goal_blocks n items e).1
  unfolding start_goal_blocks
  start_goal_blocks-Justified zero items e h = tt
  start_goal_blocks-Justified (suc n) [] e h = tt
  start_goal_blocks-Justified (suc n) (due ∷ rest) e h = (
    inl (due, h.0, goal_block_job-BlocksGoal e due),
    start_goal_blocks-Justified n rest (activate e (goal_block_job e due)) h.1,
  )

  -- The candidates of a daemon in which at least the jobs of `d` run.
  module _ (e : Daemon)
      (more : (id : String) → is_active e id ≡ false → is_active d id ≡ false) where
    note_selection-RetryIsDue :
        (id : String) (t : ThreadState) (s : Selection) (r : Daemon × List (Due PendingRetry))
        → entry d.threads id ≡ some t
        → select_due now (is_active e id) t ≡ s
        → All RetryIsDue r.1
        → All RetryIsDue (note_selection id s r).1
    note_selection-RetryIsDue id t (replies reply) r there selected h = h
    note_selection-RetryIsDue id t (candidate p) r there selected h =
        let (ready, idle) = select_due-IsDue now (is_active e id) t p selected in
        (record { thread = t; there = there; ready = ready; idle = more id idle }, h)

    collect_candidates-RetryIsDue :
        (part : Table ThreadState)
        → Found d.threads part
        → All RetryIsDue (collect_candidates e now part).1
    unfolding collect_candidates
    collect_candidates-RetryIsDue [] f = tt
    collect_candidates-RetryIsDue ((id, t) ∷ rest) f =
        note_selection-RetryIsDue id t _ (collect_candidates e now rest) f.0 refl
          (collect_candidates-RetryIsDue rest f.1)

  start_recoveries-Justified :
      (n : ℕ) (items : List (Due PendingRetry)) (e : Daemon)
      → All RetryIsDue items
      → All Justified (start_recoveries digest now n items e).1
  unfolding start_recoveries
  start_recoveries-Justified zero items e h = tt
  start_recoveries-Justified (suc n) [] e h = tt
  start_recoveries-Justified (suc n) (due ∷ rest) e h = (
    inr (due, h.0, recovery_job-SendsRetry due),
    start_recoveries-Justified n rest (start_recovery digest now due e) h.1,
  )

  dispatch_recoveries-Justified :
      (n : ℕ) (e : Daemon)
      → All RetryIsDue (collect_candidates e now e.threads).1
      → All Justified (dispatch_recoveries digest now n e).1
  unfolding dispatch_recoveries
  dispatch_recoveries-Justified n e h =
      let (collected, found) = collect_candidates e now e.threads in
      let sorted = sort_due (λ p. p.due_at) found in
      ground (
        arith,
        start_recoveries-Justified n sorted collected
            (sort_due-All (λ p. p.due_at) RetryIsDue found h),
      )

  append-Justified :
      (xs ys : List RetryJob) → All Justified xs → All Justified ys → All Justified (xs ++ ys)
  append-Justified [] ys h k = k
  append-Justified (x ∷ xs) ys h k = (h.0, append-Justified xs ys h.1 k)

  -- Each job that a tick starts is for a thread that no job runs for, and is either the mark of its goal,
  -- which is due, or its retry: that is due, no other retry of the thread is under way, its goal lets
  -- it go, and its outage, where its start is known, is not over the time limit. Every thread stands once
  -- in the table.
  pub dispatch_due-Justified : UniqueKeys d.threads → All Justified (dispatch_due digest now d).1
  unfolding dispatch_due
  dispatch_due-Justified unique =
      let available = d.config.max_parallel_retries - length d.active in
      let goals = goal_stops d now d.threads in
      let items = sort_due (λ r. r.due_at) goals in
      let blocked = (start_goal_blocks available items d).0 in
      let blocks = (start_goal_blocks available items d).1 in
      let there = UniqueKeys-Found d.threads unique in
      let (paused, threads, transport) = start_goal_blocks-keeps available items d in
      let retries : All RetryIsDue (collect_candidates blocked now blocked.threads).1 = rw threads (
        collect_candidates-RetryIsDue blocked (start_goal_blocks-idle available items d) d.threads
          there) in
      let all =
        append-Justified blocks _
          (start_goal_blocks-Justified available items d
            (sort_due-All (λ r. r.due_at) BlockIsDue goals (goal_stops-BlockIsDue d.threads there)))
          (dispatch_recoveries-Justified (available - length blocks) blocked retries) in
      elim (Bool-cases (eqb available 0)) [ inl full ↦ rw full tt | inr free ↦ rw free all ]
