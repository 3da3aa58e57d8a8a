-- ===== src/Daemon/Progress.antt =====
-- Which jobs `dispatchDueLocked` of scripts/source/daemon.go starts, and in which order.
use mathlib.Core.List.{Perm}
use codex_auto_retry.Prelude.{
  ℕ, zero, suc, ◌-◌, ◌≡◌, refl, List, [], ◌∷◌, ◌++◌, map, Time, length, take,
}
use codex_auto_retry.Model.{PendingRetry, GoalStopRequest}
use codex_auto_retry.Digest.{Digest}
use codex_auto_retry.Daemon.{Daemon, RetryJob}
use codex_auto_retry.Daemon.Dispatch.{
  Due, sort_due, goal_stops, goal_block_job, activate, start_goal_blocks, no_transport,
  collect_candidates, recovery_job,
}
use codex_auto_retry.Daemon.SortedDue.{DueInOrder}

pub start_goal_blocks-keeps :
    (n : ℕ) (items : List (Due GoalStopRequest)) (d : Daemon)
    → let d' = (start_goal_blocks n items d).0 in
      (d'.paused ≡ d.paused) × (d'.threads ≡ d.threads) × (no_transport d' ≡ no_transport d)
unfolding start_goal_blocks no_transport
start_goal_blocks-keeps zero items d = (refl, refl, refl)
start_goal_blocks-keeps (suc n) [] d = (refl, refl, refl)
start_goal_blocks-keeps (suc n) (due ∷ rest) d =
    start_goal_blocks-keeps n rest (activate d (goal_block_job d due))

module _ (digest : Digest) (now : Time) where
  -- The goals that are due, and the retries that are after the goals' jobs have been noted.
  abbrev pub due_goals : Daemon → List (Due GoalStopRequest)
  due_goals d = goal_stops d now d.threads

  abbrev pub due_retries : Daemon → List (Due PendingRetry)
  due_retries d =
      let available = d.config.max_parallel_retries - length d.active in
      let blocked = (start_goal_blocks available (sort_due (λ r. r.due_at) (due_goals d)) d).0 in
      (collect_candidates blocked now d.threads).1

  -- The jobs of a tick: the goals in the order of their times, then the retries in the order of theirs, as
  -- many as there are places.
  pub record StartsInOrder (d : Daemon) (jobs : List RetryJob) : Type 0 where
    pub goals : List (Due GoalStopRequest)
    pub all_goals : Perm (due_goals d) goals
    pub goals_ordered : DueInOrder (λ r. r.due_at) goals
    pub retries : List (Due PendingRetry)
    pub all_retries : Perm (due_retries d) retries
    pub retries_ordered : DueInOrder (λ p. p.due_at) retries
    pub started :
        jobs
        ≡ take
            (d.config.max_parallel_retries - length d.active)
            (map (goal_block_job d) goals ++ map (recovery_job digest now) retries)
