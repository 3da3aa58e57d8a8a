-- ===== src/Controller/Accepted/Threads.antt =====
-- The runner accepts what a dispatch to a thread answers (scripts/source/shared_controller.go).
use codex_auto_retry.Prelude.{
  ◌≡◌, refl, arith, String, Bool, true, false, ◌∷◌, Option, none, some, ◌==◌, Bool-cases, inl, inr,
  eq_iff,
}
use codex_auto_retry.Model.{action_conversation_continue, action_goal_resume}
use codex_auto_retry.Runner.{DispatchResult}
use codex_auto_retry.Controller.Goals.{AppGoal, app_goal_hold_reason}
use codex_auto_retry.Controller.Errors.{RpcError, empty_app_input_unsupported}
use codex_auto_retry.Controller.Reasons.{
  is_reason, app_goal_hold_reason-is_reason, dispatch_reasons,
}
use codex_auto_retry.Controller.{
  Log, Reply, answer, refusal, Codex, result, ◌>>=◌, return, not_applicable_result, turn_started,
  goal_read, refused,
}
use codex_auto_retry.Controller.Dispatch
use codex_auto_retry.Controller.Accepted.{
  Passes, StepPasses, not_applicable_result-Passes, user_active_result-Passes,
  dispatched_result-Passes, continue-StepPasses, replied-StepPasses,
}

module _ (codex : Codex) (req : Dispatch.Request) where
  pub start_conversation-StepPasses :
      (notified : Bool) (r : DispatchResult) (l : Log)
      → Passes r
      → StepPasses (Dispatch.start_conversation codex req notified r l).0
  start_conversation-StepPasses notified r l p =
      continue-StepPasses _ _ (λ _. return (result r))
        (or_with_prompt-StepPasses (codex.start_turn l req.thread_id none)) (λ _. p)
    where
      or_with_prompt-StepPasses :
          (reply : Reply RpcError (Unit {0}))
          → StepPasses (Dispatch.or_with_prompt codex notified req.thread_id req.prompt reply l).0
      or_with_prompt-StepPasses (answer a) = tt
      or_with_prompt-StepPasses (refusal e) = elim (Bool-cases (empty_app_input_unsupported e)) [
        | inl empty ↦ rw empty (
            replied-StepPasses {A = Unit {0}} notified (λ _. turn_started req.thread_id) _
              (refused ∷ l))
        | inr other ↦ rw other (
            replied-StepPasses {A = Unit {0}} notified (λ _. turn_started req.thread_id) (refusal e)
              l)
      ]

  conversation_unless_active-StepPasses :
      (resumed_status reason : String) (l : Log)
      → is_reason reason ≡ true
      → StepPasses (Dispatch.conversation_unless_active codex req resumed_status reason l).0
  conversation_unless_active-StepPasses resumed_status reason l ok =
      elim (Bool-cases (resumed_status == "active")) [
        | inl e ↦ rw e (user_active_result-Passes req.parent_notified)
        | inr e ↦ rw e (
            start_conversation-StepPasses req.parent_notified _ l (
              dispatched_result-Passes action_conversation_continue reason req.parent_notified ok
                refl refl))
      ]

  resume_goal-StepPasses :
      (resumed_status : String) (goal : Option AppGoal) (l : Log)
      → StepPasses (Dispatch.resume_goal codex req resumed_status goal l).0
  resume_goal-StepPasses resumed_status none l =
      conversation_unless_active-StepPasses resumed_status _ l dispatch_reasons.7
  resume_goal-StepPasses resumed_status (some goal) l =
      elim (Bool-cases (goal.status == "blocked")) [
        | inl e ↦ rw e (
            continue-StepPasses _ _ (λ _. return (result (Dispatch.goal_resumed codex req)))
              (replied-StepPasses req.parent_notified _ (codex.set_goal l req.thread_id "active") l)
              (λ _. resumed))
        | inr e ↦ elim (Bool-cases (goal.status == "active")) [
          | inl a ↦ rw (e, a) resumed
          | inr a ↦
              rw (e, a)
                (conversation_unless_active-StepPasses resumed_status _ l dispatch_reasons.7)
        ]
      ]
    where
      resumed : Passes (Dispatch.goal_resumed codex req)
      resumed =
          dispatched_result-Passes action_goal_resume _ req.parent_notified dispatch_reasons.6 refl
            refl

  held-StepPasses :
      (goal : Option AppGoal)
      → (app_goal_hold_reason goal req.failed_at req.goal_limit_restart == "") ≡ false
      → Passes (
          not_applicable_result
            (app_goal_hold_reason goal req.failed_at req.goal_limit_restart)
            req.parent_notified)
  held-StepPasses goal held = not_applicable_result-Passes _ req.parent_notified (
      ground (
        arith,
        held,
        app_goal_hold_reason-is_reason goal req.failed_at req.goal_limit_restart,
        eq_iff (app_goal_hold_reason goal req.failed_at req.goal_limit_restart) "",
      ))

  dispatch_again-StepPasses :
      (resumed_status : String) (initial latest : Option AppGoal) (l : Log)
      → StepPasses (Dispatch.dispatch_again codex req resumed_status initial latest l).0
  unfolding Dispatch.dispatch_again
  dispatch_again-StepPasses resumed_status initial latest l = ground (
    arith,
    not_applicable_result-Passes "goal_status_changed" req.parent_notified dispatch_reasons.4,
    conversation_unless_active-StepPasses resumed_status "silent_turn_started_with_goal_held" l
        dispatch_reasons.5,
    held-StepPasses latest,
    resume_goal-StepPasses resumed_status latest l,
  )

  after_first_goal-StepPasses :
      (resumed_status : String) (initial : Option AppGoal) (l : Log)
      → StepPasses (Dispatch.after_first_goal codex req resumed_status initial l).0
  after_first_goal-StepPasses resumed_status initial l =
      let again : StepPasses
          ((Dispatch.read_app_goal codex req
              >>= Dispatch.dispatch_again codex req resumed_status initial)
            l).0 =
        continue-StepPasses _ _ (Dispatch.dispatch_again codex req resumed_status initial)
          (replied-StepPasses req.parent_notified (goal_read req.thread_id)
            (codex.read_goal l req.thread_id) l)
          (λ latest. dispatch_again-StepPasses resumed_status initial latest _) in
      ground (arith, held-StepPasses initial, again)

  pub dispatch_to_thread-StepPasses :
      (resumed_status : String) (l : Log)
      → StepPasses (Dispatch.dispatch_to_thread codex req resumed_status l).0
  unfolding Dispatch.dispatch_to_thread
  dispatch_to_thread-StepPasses resumed_status l =
      continue-StepPasses _ _ (Dispatch.after_first_goal codex req resumed_status)
        (replied-StepPasses req.parent_notified (goal_read req.thread_id)
          (codex.read_goal l req.thread_id) l)
        (λ initial. after_first_goal-StepPasses resumed_status initial _)
