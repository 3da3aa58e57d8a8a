-- ===== src/State/Loaded.antt =====
-- What `loadState` of scripts/source/state.go makes of the threads that it reads.
use codex_auto_retry.Prelude.{
  ℕ, ◌≤◌, ◌≡◌, refl, arith, [], ◌∷◌, none, some, Table, Fresh, UniqueKeys, is_some, true, Option,
  Time, String,
}
use codex_auto_retry.Model.{ThreadState, PendingRetry, AwaitingRetry, StoppedRetry, GoalStopRequest}
use codex_auto_retry.Thread.WellFormed.{IsWellFormed, pending_attempt, pending_consecutive}
use codex_auto_retry.Daemon.Invariant.Loops.{WellFormedThreads}
use codex_auto_retry.State.Load.{
  or_if_zero, repair_pending, repair_awaiting, repair_stopped, repair_goal_stop, repair_thread,
  repair_threads,
}

or_if_zero_twice : (n m : ℕ) → or_if_zero (or_if_zero n m) m ≡ or_if_zero n m
or_if_zero_twice n m = ground arith

or_if_zero-zero : (n : ℕ) → or_if_zero n 0 ≡ n
or_if_zero-zero n = ground arith

repair_pending_twice :
    (r c : ℕ) (at : Time) (p : Option PendingRetry)
    → repair_pending r c at (repair_pending r c at p) ≡ repair_pending r c at p
unfolding repair_pending
repair_pending_twice r c at none = refl
repair_pending_twice r c at (some p) = ground arith

repair_awaiting_twice :
    (c : ℕ) (at : Time) (a : Option AwaitingRetry)
    → repair_awaiting c at (repair_awaiting c at a) ≡ repair_awaiting c at a
unfolding repair_awaiting
repair_awaiting_twice c at none = refl
repair_awaiting_twice c at (some a) = ground arith

repair_stopped_twice :
    (s : Option StoppedRetry) → repair_stopped (repair_stopped s) ≡ repair_stopped s
unfolding repair_stopped
repair_stopped_twice none = refl
repair_stopped_twice (some s) = ground arith

repair_goal_stop_twice :
    (g : Option GoalStopRequest) (s : Option StoppedRetry)
    → repair_goal_stop (repair_goal_stop g s) (repair_stopped s) ≡ repair_goal_stop g s
unfolding repair_goal_stop repair_stopped
repair_goal_stop_twice none s = refl
repair_goal_stop_twice (some g) none = refl
repair_goal_stop_twice (some g) (some s) = ground arith

-- Loading a thread a second time changes nothing.
pub repair_thread_idem : (t : ThreadState) → repair_thread (repair_thread t) ≡ repair_thread t
unfolding repair_thread
repair_thread_idem t =
    let r = or_if_zero t.recovery_attempts t.legacy_failures in
    let c = or_if_zero t.consecutive_retries t.legacy_failures in
    rw (
      or_if_zero-zero r,
      or_if_zero-zero c,
      repair_pending_twice r c t.last_failure_at t.pending,
      repair_awaiting_twice c t.last_failure_at t.awaiting,
      repair_stopped_twice t.stopped,
      repair_goal_stop_twice t.goal_stop t.stopped,
    )

-- Whatever an older version has written, a retry that waits has counters of at least 1 once it is
-- loaded.
pub repair_thread-counted :
    (t : ThreadState)
    → is_some t.pending ≡ true
    → (1 ≤ pending_attempt (repair_thread t).pending)
      × (1 ≤ pending_consecutive (repair_thread t).pending)
unfolding repair_thread repair_pending
repair_thread-counted t h = ground arith

repair_thread-IsWellFormed : (t : ThreadState) → IsWellFormed t → IsWellFormed (repair_thread t)
unfolding repair_thread repair_pending repair_awaiting repair_stopped repair_goal_stop
repair_thread-IsWellFormed t v = ground (arith)

repair_threads-Fresh :
    (m : Table ThreadState) (id : String) → Fresh id m → Fresh id (repair_threads m)
unfolding repair_threads
repair_threads-Fresh [] id f = tt
repair_threads-Fresh ((j, t) ∷ rest) id f = (f.0, repair_threads-Fresh rest id f.1)

-- A state whose threads are well-formed, with one entry each, is so again when it is loaded.
pub repair_threads-WellFormed :
    (m : Table ThreadState)
    → WellFormedThreads m × UniqueKeys m
    → WellFormedThreads (repair_threads m) × UniqueKeys (repair_threads m)
unfolding repair_threads
repair_threads-WellFormed [] h = (tt, tt)
repair_threads-WellFormed ((id, t) ∷ rest) h =
    let (threads, unique) = repair_threads-WellFormed rest (h.0.1, h.1.1) in
    ((repair_thread-IsWellFormed t h.0.0, threads), (repair_threads-Fresh rest id h.1.0, unique))
