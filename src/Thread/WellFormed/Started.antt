-- ===== src/Thread/WellFormed/Started.antt =====
-- The start of a turn keeps a thread's retry state well-formed.
use codex_auto_retry.Prelude.{◌≡◌, some, arith, Option-cases, inl, inr}
use codex_auto_retry.Model.{ThreadState, AwaitingRetry, PendingRetry, RelevantEvent, RetryAction}
use codex_auto_retry.Thread.Events.{
  adopt_turn, started_while_awaiting, started_while_pending, handle_task_started, external_turn,
  note_start, adoption,
}
use codex_auto_retry.Thread.WellFormed.{IsWellFormed, Keeps, cancel_retry-Keeps}

started_while_awaiting-Keeps :
    (t : ThreadState) (a : AwaitingRetry) (event : RelevantEvent)
    → IsWellFormed t
    → t.awaiting ≡ some a
    → Keeps (started_while_awaiting t a event)
unfolding started_while_awaiting
started_while_awaiting-Keeps t a event v e =
    ground (arith, cancel_retry-Keeps (external_turn t event))

adopt_turn-IsWellFormed :
    (t : ThreadState) (p : PendingRetry) (event : RelevantEvent) (how : RetryAction)
    → IsWellFormed t
    → t.pending ≡ some p
    → IsWellFormed (adopt_turn t p event how)
unfolding adopt_turn
adopt_turn-IsWellFormed t p event how v e = ground arith

started_while_pending-Keeps :
    (t : ThreadState) (p : PendingRetry) (event : RelevantEvent)
    → IsWellFormed t
    → t.pending ≡ some p
    → Keeps (started_while_pending t p event)
unfolding started_while_pending
started_while_pending-Keeps t p event v e = ground (
  arith,
  cancel_retry-Keeps (external_turn t event),
  adopt_turn-IsWellFormed t p event (adoption t event) v e,
)

note_start-IsWellFormed :
    (t : ThreadState) (event : RelevantEvent) → IsWellFormed t → IsWellFormed (note_start t event)
note_start-IsWellFormed t event v = ground arith

-- The start of any turn keeps the thread well-formed, whether it is credited to the dispatched retry,
-- adopted, taken for the user's, or ignored.
pub handle_task_started-Keeps :
    (event : RelevantEvent) (t : ThreadState) → IsWellFormed t → Keeps (handle_task_started event t)
unfolding handle_task_started
handle_task_started-Keeps event t v = elim (Option-cases t.awaiting) [
  | inr (a, e) ↦ ground (
    arith,
    note_start-IsWellFormed t event v,
    started_while_awaiting-Keeps (note_start t event) a event (note_start-IsWellFormed t event v) e,
  )
  | inl e ↦ elim (Option-cases t.pending) [
    | inr (p, f) ↦ ground (
      arith,
      note_start-IsWellFormed t event v,
      started_while_pending-Keeps (note_start t event) p event (note_start-IsWellFormed t event v)
          f,
    )
    | inl f ↦ ground (arith, note_start-IsWellFormed t event v)
  ]
]
