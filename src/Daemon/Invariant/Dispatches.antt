-- ===== src/Daemon/Invariant/Dispatches.antt =====
-- `dispatchDueLocked` of scripts/source/daemon.go: it dispatches pending retries of threads that are
-- there, and keeps every thread well-formed.
use codex_auto_retry.Prelude.{
  ℕ, zero, suc, ◌≡◌, String, false, List, [], ◌∷◌, some, arith, Time, Table, All, entry, assign,
  entry-assign, assign-All, assign-UniqueKeys, ◌==◌, eq_iff,
}
use codex_auto_retry.Model.{ThreadState, PendingRetry}
use codex_auto_retry.Digest.{Digest}
use codex_auto_retry.Thread.WellFormed.{IsWellFormed}
use codex_auto_retry.Thread.WellFormed.Queue.{dispatch_thread-IsWellFormed}
use codex_auto_retry.Daemon.{Daemon, thread_of, thread_or_zero}
use codex_auto_retry.Daemon.Dispatch.{Due, insert_due, sort_due, start_recovery, start_recoveries}
use codex_auto_retry.Daemon.SortedDue.{insert_due-All, sort_due-All}
use codex_auto_retry.Daemon.Invariant.Loops.{AllWellFormed, thread_of-IsWellFormed}

-- The due item is the pending retry of its thread.
abbrev pub IsReady : Table ThreadState → Due PendingRetry → Type 0
IsReady threads due = (thread_or_zero (entry threads due.thread_id)).pending ≡ some due.item

-- No due item of that thread.
abbrev pub NotDue : String → List (Due PendingRetry) → Type 0
NotDue id dues = All (λ due. (id == due.thread_id) ≡ false) dues

abbrev pub DistinctDue : List (Due PendingRetry) → Type 0
DistinctDue [] = Unit
DistinctDue (due ∷ rest) = NotDue due.thread_id rest × DistinctDue rest

pub IsReady-assign :
    (threads : Table ThreadState) (id : String) (t : ThreadState) (dues : List (Due PendingRetry))
    → NotDue id dues
    → All (IsReady threads) dues
    → All (IsReady (assign threads id t)) dues
IsReady-assign threads id t [] n h = tt
IsReady-assign threads id t (due ∷ rest) n h = (
  ground (
    arith,
    h.0,
    n.0,
    eq_iff id due.thread_id,
    eq_iff due.thread_id id,
    entry-assign threads id due.thread_id t,
  ),
  IsReady-assign threads id t rest n.1 h.1,
)

insert_due-DistinctDue :
    (due_at : PendingRetry → Time) (x : Due PendingRetry) (dues : List (Due PendingRetry))
    → NotDue x.thread_id dues
    → DistinctDue dues
    → DistinctDue (insert_due due_at x dues)
unfolding insert_due
insert_due-DistinctDue due_at x [] n h = (tt, tt)
insert_due-DistinctDue due_at x (y ∷ rest) n h = ground (
  arith,
  eq_iff x.thread_id y.thread_id,
  eq_iff y.thread_id x.thread_id,
  insert_due-DistinctDue due_at x rest n.1 h.1,
  insert_due-All due_at (λ due. (y.thread_id == due.thread_id) ≡ false) x rest,
)

pub sort_due-DistinctDue :
    (due_at : PendingRetry → Time) (dues : List (Due PendingRetry))
    → DistinctDue dues
    → DistinctDue (sort_due due_at dues)
unfolding sort_due
sort_due-DistinctDue due_at [] h = tt
sort_due-DistinctDue due_at (x ∷ rest) h =
    insert_due-DistinctDue due_at x (sort_due due_at rest)
      (sort_due-All due_at (λ due. (x.thread_id == due.thread_id) ≡ false) rest h.0)
      (sort_due-DistinctDue due_at rest h.1)

module _ (digest : Digest) (now : Time) where
  start_recovery-AllWellFormed :
      (due : Due PendingRetry) (d : Daemon)
      → AllWellFormed d
      → IsReady d.threads due
      → AllWellFormed (start_recovery digest now due d)
  start_recovery-AllWellFormed due d h r = (
    assign-All IsWellFormed d.threads due.thread_id _ h.0 (
        dispatch_thread-IsWellFormed d.config now (thread_of d due.thread_id)
          (thread_of-IsWellFormed d due.thread_id h) due.item r),
    assign-UniqueKeys d.threads due.thread_id _ h.1,
  )

  pub start_recoveries-AllWellFormed :
      (n : ℕ) (dues : List (Due PendingRetry)) (d : Daemon)
      → AllWellFormed d
      → All (IsReady d.threads) dues
      → DistinctDue dues
      → AllWellFormed (start_recoveries digest now n dues d).0
  unfolding start_recoveries
  start_recoveries-AllWellFormed zero dues d h r s = h
  start_recoveries-AllWellFormed (suc n) [] d h r s = h
  start_recoveries-AllWellFormed (suc n) (due ∷ rest) d h r s =
      start_recoveries-AllWellFormed n rest (start_recovery digest now due d)
        (start_recovery-AllWellFormed due d h r.0)
        (IsReady-assign d.threads due.thread_id _ rest s.0 r.1) s.1
