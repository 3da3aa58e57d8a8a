-- ===== src/Daemon/Release.antt =====
-- What the end of a job may change (`runJob` of scripts/source/daemon.go, `runGoalBlockJob` of
-- goal_recovery.go).
use text.Mathlib.TextPositions.{eq_refl}
use codex_auto_retry.Prelude.{
  ◌≡◌, ◌≢◌, ◌⊎◌, none, some, refl, arith, String, false, Option, Time, entry, delete, has_entry,
  entry-delete, ◌==◌, Bool-cases, inl, inr,
}
use codex_auto_retry.Model.{AwaitingRetry}
use codex_auto_retry.Runner.{DispatchResult, ControllerError}
use codex_auto_retry.Thread.{Reply}
use codex_auto_retry.Daemon.{Daemon, RetryJob, thread_of, apply_reply}
use codex_auto_retry.Daemon.Job.{
  finish_job, awaits_job, settle_controller, record_controller_success, settle_thread, map_awaiting,
  note_parent,
}
use codex_auto_retry.Daemon.Loop.{write_thread-entry}

apply_reply-elsewhere :
    (d : Daemon) (id other : String) (reply : Reply)
    → (other == id) ≡ false
    → entry (apply_reply d id reply).threads other ≡ entry d.threads other
unfolding apply_reply
apply_reply-elsewhere d id other reply apart =
    rw (write_thread-entry d.threads id other reply.stored, apart) refl

apply_reply-active :
    (d : Daemon) (id : String) (reply : Reply) → (apply_reply d id reply).active ≡ d.active
unfolding apply_reply
apply_reply-active d id reply = refl

settle_controller-keeps :
    (result : DispatchResult) (error : Option ControllerError) (d : Daemon)
    → ((settle_controller result error d).threads ≡ d.threads)
      × ((settle_controller result error d).active ≡ d.active)
unfolding settle_controller record_controller_success
settle_controller-keeps result error d = ground arith

-- The thread awaits no retry, that of another failure, or another attempt.
abbrev pub AwaitsOther : RetryJob → Option AwaitingRetry → Type 0
AwaitsOther job none = Unit
AwaitsOther job (some a) = (a.event_key ≢ job.event_key) ⊎ (a.attempt ≢ job.attempt)

-- The end of a job frees its place, and touches no other thread and no other job.
pub finish_job-isolated :
    (job : RetryJob) (at : Time) (result : DispatchResult) (error : Option ControllerError)
    (d : Daemon) (other : String)
    → (other == job.thread_id) ≡ false
    → let d' = finish_job job at result error d in
      (has_entry d'.active job.thread_id ≡ false)
      × (entry d'.active other ≡ entry d.active other)
      × (entry d'.threads other ≡ entry d.threads other)
unfolding finish_job
finish_job-isolated job at result error d other apart =
    let id = job.thread_id in
    let t = thread_of d id in
    let released = record d { active = delete d.active id; active_ctx = delete d.active_ctx id } in
    let freed = entry-delete d.active id id in
    let kept = entry-delete d.active id other in
    let (threads, active) = settle_controller-keeps result error released in
    let settled = settle_controller result error released in
    let reply =
      settle_thread d.config at result error
        (record t { awaiting = map_awaiting (note_parent result) t.awaiting }) in
    elim (Bool-cases (awaits_job job t.awaiting)) [
      | inl e ↦ ground (
        arith,
        e,
        apart,
        eq_refl id,
        freed,
        kept,
        threads,
        active,
        apply_reply-elsewhere settled id other reply apart,
        apply_reply-active settled id reply,
      )
      | inr e ↦ ground (arith, e, apart, eq_refl id, freed, kept)
    ]
