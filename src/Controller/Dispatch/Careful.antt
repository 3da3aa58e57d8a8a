-- ===== src/Controller/Dispatch/Careful.antt =====
-- What a dispatch (scripts/source/shared_controller.go) must have read before it starts a turn, and what its answer says.
use codex_auto_retry.Prelude.{
  ℕ, ◌+◌, ◌≡◌, ◌≢◌, ◌⊎◌, String, true, [], ◌∷◌, none, some, if◌then◌else◌,
}
use codex_auto_retry.Policy.{is_empty_response}
use codex_auto_retry.Runner.{is_dispatched}
use codex_auto_retry.Controller.Goals.{app_goal_hold_reason, app_held_conversation_allowed}
use codex_auto_retry.Controller.{
  thread_read, goal_read, goal_set, turn_started, notice_given, Log, result, error, Step, more,
  stop,
}
use codex_auto_retry.Controller.Dispatch.{Request}

-- The latest thread that was read is this one, and it was not active.
abbrev pub ReadInactive : String → Log → Type 0
ReadInactive id [] = ⊥
ReadInactive id (thread_read i (some thread) ∷ l) = (i ≡ id) × (thread.status ≢ "active")
ReadInactive id (_ ∷ l) = ReadInactive id l

-- The latest goal that was read is this thread's, and it lets the retry go on.
abbrev pub GoalAllows : Request → Log → Type 0
GoalAllows req [] = ⊥
GoalAllows req (goal_read i goal ∷ l) =
    (i ≡ req.thread_id)
    × ((app_goal_hold_reason goal req.failed_at req.goal_limit_restart ≡ "")
        ⊎ (app_held_conversation_allowed goal req.failed_at req.origin_turn_started_at
              req.goal_limit_restart
            ≡ true))
GoalAllows req (_ ∷ l) = GoalAllows req l

abbrev pub NoticeGiven : Request → Log → Type 0
NoticeGiven req [] = ⊥
NoticeGiven req (notice_given parent child event ∷ l) =
    (child ≡ req.thread_id) × (event ≡ req.recovery_event_id)
NoticeGiven req (_ ∷ l) = NoticeGiven req l

-- What must be known before a turn is started: for a child, that its parent knows of it.
abbrev pub MayStart : Request → Log → Type 0
MayStart req l =
    ReadInactive req.thread_id l
    × (GoalAllows req l
        ⊎ ((is_empty_response req.failure_class ≡ true)
            × ((req.parent_notified ≡ true) ⊎ NoticeGiven req l)))

-- Each start in the log was allowed by what had been read before it.
abbrev pub StartsCarefully : Request → Log → Type 0
StartsCarefully req [] = Unit
StartsCarefully req (turn_started i ∷ l) =
    (i ≡ req.thread_id) × MayStart req l × StartsCarefully req l
StartsCarefully req (goal_set i status ∷ l) =
    (i ≡ req.thread_id) × (status ≡ "active") × MayStart req l × StartsCarefully req l
StartsCarefully req (_ ∷ l) = StartsCarefully req l

abbrev pub starts : Log → ℕ
starts [] = 0
starts (turn_started i ∷ l) = starts l + 1
starts (goal_set i status ∷ l) = starts l + 1
starts (_ ∷ l) = starts l

-- The latest goal that was read is active, so that Codex goes on by itself.
abbrev pub GoalActive : Log → Type 0
GoalActive [] = ⊥
GoalActive (goal_read i (some goal) ∷ l) = goal.status ≡ "active"
GoalActive (goal_read i none ∷ l) = ⊥
GoalActive (_ ∷ l) = GoalActive l

-- What an answer says of the starts in the log.
abbrev pub Tells : Step (Unit {0}) → Log → Type 0
Tells (more _) l = ⊥
Tells (stop (error e)) l = starts l ≡ 0
Tells (stop (result r)) l =
    if is_dispatched r.outcome
    then (starts l ≡ 1) ⊎ ((starts l ≡ 0) × GoalActive l)
    else starts l ≡ 0

pub record Concluded (req : Request) (r : Step (Unit {0}) × Log) : Type 0 where
  pub careful : StartsCarefully req r.1
  pub tells : Tells r.0 r.1
