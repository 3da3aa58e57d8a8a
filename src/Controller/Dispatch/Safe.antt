-- ===== src/Controller/Dispatch/Safe.antt =====
-- When `Dispatch` of scripts/source/shared_controller.go starts a turn over the app-server.
use codex_auto_retry.Prelude.{
  ◌≡◌, ◌≢◌, ◌⊎◌, refl, arith, String, Bool, true, List, ◌∷◌, Option, none, some, ◌==◌,
  if◌then◌else◌, Bool-cases, inl, inr, eq_iff,
}
use codex_auto_retry.Model.{action_conversation_continue}
use codex_auto_retry.Policy.{is_empty_response}
use codex_auto_retry.Runner.{DispatchResult, is_dispatched}
use codex_auto_retry.Controller.Goals.{AppGoal, app_goal_hold_reason}
use codex_auto_retry.Controller.Errors.{RpcError}
use codex_auto_retry.Controller.{
  AppThread, Entry, loaded_listed, thread_resumed, thread_read, goal_read, Log, Reply, answer,
  refusal, Codex, Step, more, stop, Exec, continue, ◌>>=◌, replied, dispatched_result,
}
use codex_auto_retry.Controller.Dispatch.{
  Request, start_conversation, dispatch_to_subagent, dispatch_to_thread, dispatch_again,
  dispatch_read, dispatch_loaded, dispatch_listed, has_item, dispatch_over_server,
  app_thread_parent_id, conversation_unless_active, resume_goal, read_app_goal, tell_parent,
  start_subagent, start_unless_active, subagent_resumed,
}
use codex_auto_retry.Controller.Dispatch.Careful.{
  Concluded, MayStart, NoticeGiven, ReadInactive, StartsCarefully, starts,
}

module _ (codex : Codex) (req : Request) where
  start_conversation-Concluded :
      (notified : Bool) (r : DispatchResult) (l : Log)
      → is_dispatched r.outcome ≡ true
      → starts l ≡ 0
      → StartsCarefully req l
      → MayStart req l
      → Concluded req (start_conversation codex req notified r l)
  start_conversation-Concluded notified r l d fresh careful may = ground arith

  -- A call is answered by that reply, and the dispatch goes on by `f`.
  replied-Concluded :
      {A : Type 0} (notified : Bool) (entry : A → Entry) (reply : Reply RpcError A)
      (f : A → Exec (Unit {0})) (l : Log)
      → starts l ≡ 0
      → StartsCarefully req l
      → ((a : A) → Concluded req (f a (entry a ∷ l)))
      → Concluded req
          (continue (replied notified entry reply l).0 (replied notified entry reply l).1 f)
  replied-Concluded notified entry (answer a) f l fresh careful go = go a
  replied-Concluded notified entry (refusal e) f l fresh careful go = record {
    careful = careful;
    tells = fresh;
  }

  -- Before a start: nothing has been started, and the thread was read as inactive.
  record Ready (l : Log) : Type 0 where
    fresh : starts l ≡ 0
    careful : StartsCarefully req l
    inactive : ReadInactive req.thread_id l

  conversation_unless_active-Concluded :
      (resumed_status reason : String) (l : Log)
      → Ready l
      → MayStart req l
      → Concluded req (conversation_unless_active codex req resumed_status reason l)
  conversation_unless_active-Concluded resumed_status reason l v may = ground (
    arith,
    start_conversation-Concluded req.parent_notified
        (dispatched_result action_conversation_continue reason req.parent_notified) l,
  )

  resume_goal-Concluded :
      (resumed_status : String) (goal : Option AppGoal) (i : String) (l : Log)
      → Ready l
      → MayStart req (goal_read i goal ∷ l)
      → Concluded req (resume_goal codex req resumed_status goal (goal_read i goal ∷ l))
  resume_goal-Concluded resumed_status none i l v may =
      conversation_unless_active-Concluded resumed_status "silent_turn_started_in_background" _
        (record { fresh = v.fresh; careful = v.careful; inactive = v.inactive }) may
  resume_goal-Concluded resumed_status (some goal) i l v may =
      let conversation =
        conversation_unless_active-Concluded resumed_status "silent_turn_started_in_background"
          (goal_read i (some goal) ∷ l)
          (record { fresh = v.fresh; careful = v.careful; inactive = v.inactive }) may in
      ground (arith, conversation, eq_iff goal.status "active")

  dispatch_again-Concluded :
      (resumed_status : String) (initial latest : Option AppGoal) (l : Log)
      → Ready l
      → Concluded req (
          dispatch_again codex req resumed_status initial latest
            (goal_read req.thread_id latest ∷ l))
  unfolding dispatch_again
  dispatch_again-Concluded resumed_status initial latest l v =
      let l' : Log = goal_read req.thread_id latest ∷ l in
      let ready : Ready l' = record {
        fresh = v.fresh;
        careful = v.careful;
        inactive = v.inactive;
      } in
      ground (
        arith,
        eq_iff (app_goal_hold_reason latest req.failed_at req.goal_limit_restart) "",
        conversation_unless_active-Concluded resumed_status "silent_turn_started_with_goal_held" l'
            ready,
        resume_goal-Concluded resumed_status latest req.thread_id l v,
      )

  after_first-Concluded :
      (resumed_status : String) (initial : Option AppGoal) (l : Log)
      → Ready l
      → Concluded req
          ((read_app_goal codex req >>= dispatch_again codex req resumed_status initial) l)
  after_first-Concluded resumed_status initial l v =
      replied-Concluded req.parent_notified (goal_read req.thread_id)
        (codex.read_goal l req.thread_id) (dispatch_again codex req resumed_status initial) l
        v.fresh v.careful (λ latest. dispatch_again-Concluded resumed_status initial latest l v)

  dispatch_to_thread-Concluded :
      (resumed_status : String) (l : Log)
      → Ready l
      → Concluded req (dispatch_to_thread codex req resumed_status l)
  unfolding dispatch_to_thread
  dispatch_to_thread-Concluded resumed_status l v =
      replied-Concluded req.parent_notified (goal_read req.thread_id)
        (codex.read_goal l req.thread_id) _ l v.fresh v.careful
        (λ goal.
          let l' : Log = goal_read req.thread_id goal ∷ l in
          let ready : Ready l' = record {
            fresh = v.fresh;
            careful = v.careful;
            inactive = v.inactive;
          } in
          ground (arith, after_first-Concluded resumed_status goal l' ready))

  -- What telling the parent leaves.
  abbrev Told : Step (Unit {0}) → Log → Type 0
  Told (more _) l = Ready l × ((req.parent_notified ≡ true) ⊎ NoticeGiven req l)
  Told (stop r) l = Concluded req (stop r, l)

  tell_parent-Told :
      (parent : String) (l : Log)
      → Ready l
      → Told (tell_parent codex req parent l).0 (tell_parent codex req parent l).1
  tell_parent-Told parent l v = ground arith

  start_subagent-Concluded :
      (resumed_status : String) (l : Log)
      → Ready l
      → is_empty_response req.failure_class ≡ true
      → ((req.parent_notified ≡ true) ⊎ NoticeGiven req l)
      → Concluded req (start_subagent codex req resumed_status l)
  start_subagent-Concluded resumed_status l v empty told =
      elim (codex.read_thread l req.thread_id)
        as (λ reply. Concluded req (
          continue (replied true (thread_read req.thread_id) reply l).0
            (replied true (thread_read req.thread_id) reply l).1
            (start_unless_active codex req resumed_status))) [
              | refusal e ↦ record { careful = v.careful; tells = v.fresh }
              | answer none ↦
                  start_conversation-Concluded true subagent_resumed _ refl v.fresh v.careful
                    (v.inactive, inr (empty, told))
              | answer (some thread) ↦ ground (
                arith,
                eq_iff thread.status "active",
                start_conversation-Concluded true subagent_resumed
                    (thread_read req.thread_id (some thread) ∷ l),
              )
            ]

  start_informed-Concluded :
      (resumed_status : String) (r : Step (Unit {0})) (l : Log)
      → is_empty_response req.failure_class ≡ true
      → Told r l
      → Concluded req (continue r l (λ _. start_subagent codex req resumed_status))
  start_informed-Concluded resumed_status (more _) l empty (v, told) =
      start_subagent-Concluded resumed_status l v empty told
  start_informed-Concluded resumed_status (stop r) l empty c = c

  dispatch_to_subagent-Concluded :
      (parent resumed_status : String) (l : Log)
      → Ready l
      → Concluded req (dispatch_to_subagent codex req parent resumed_status l)
  unfolding dispatch_to_subagent
  dispatch_to_subagent-Concluded parent resumed_status l v =
      elim (Bool-cases (is_empty_response req.failure_class)) [
        | inl empty ↦
            rw empty
              (start_informed-Concluded resumed_status _ _ empty (tell_parent-Told parent l v))
        | inr other ↦ rw other (record { careful = v.careful; tells = v.fresh })
      ]

  dispatch_read-Concluded :
      (resumed_status : String) (thread : Option AppThread) (l : Log)
      → starts l ≡ 0
      → StartsCarefully req l
      → Concluded req
          (dispatch_read codex req resumed_status thread (thread_read req.thread_id thread ∷ l))
  unfolding dispatch_read
  dispatch_read-Concluded resumed_status none l fresh careful = record {
    careful = careful;
    tells = fresh;
  }
  dispatch_read-Concluded resumed_status (some thread) l fresh careful =
      let l' : Log = thread_read req.thread_id (some thread) ∷ l in
      let status = if resumed_status == "" then thread.status else resumed_status in
      let go : thread.status ≢ "active" → Ready l' =
        λ inactive. record { fresh = fresh; careful = careful; inactive = (refl, inactive) } in
      ground (
        arith,
        eq_iff thread.status "active",
        λ (inactive : thread.status ≢ "active").
            dispatch_to_subagent-Concluded (app_thread_parent_id thread) status l' (go inactive),
        λ (inactive : thread.status ≢ "active").
            dispatch_to_thread-Concluded status l' (go inactive),
      )

  dispatch_loaded-Concluded :
      (resumed_status : String) (l : Log)
      → starts l ≡ 0
      → StartsCarefully req l
      → Concluded req (dispatch_loaded codex req resumed_status l)
  dispatch_loaded-Concluded resumed_status l fresh careful =
      replied-Concluded req.parent_notified (thread_read req.thread_id)
        (codex.read_thread l req.thread_id) (dispatch_read codex req resumed_status) l fresh careful
        (λ thread. dispatch_read-Concluded resumed_status thread l fresh careful)

  dispatch_listed-Concluded :
      (listed : List String) (l : Log)
      → starts l ≡ 0
      → StartsCarefully req l
      → Concluded req (dispatch_listed codex req listed l)
  dispatch_listed-Concluded listed l fresh careful =
      elim (Bool-cases (has_item req.thread_id listed)) [
        | inl here ↦ rw here (dispatch_loaded-Concluded "" l fresh careful)
        | inr missing ↦ rw missing (
            replied-Concluded req.parent_notified (thread_resumed req.thread_id)
              (codex.resume l req.thread_id req.settings) (dispatch_loaded codex req) l fresh
              careful
              (λ status.
                dispatch_loaded-Concluded status (thread_resumed req.thread_id status ∷ l) fresh
                  careful))
      ]

  -- Over the app-server at most one turn is accepted as started, or one goal as activated, and only of this
  -- thread, after it was read as not active, and after its goal was read as one that lets the retry go
  -- on, or, for an empty response of a child, after its parent was told or was known to have been. If one
  -- is, the answer says that the retry was sent; if the answer says so, one is, or the goal was read as
  -- active. The log so far has no start.
  pub dispatch_over_server-Concluded :
      (l : Log)
      → starts l ≡ 0
      → StartsCarefully req l
      → Concluded req (dispatch_over_server codex req l)
  unfolding dispatch_over_server
  dispatch_over_server-Concluded l fresh careful = elim (Bool-cases (codex.dial l)) [
    | inl dialled ↦ rw dialled (
        replied-Concluded req.parent_notified loaded_listed (codex.loaded l)
          (dispatch_listed codex req) l fresh careful
          (λ listed. dispatch_listed-Concluded listed (loaded_listed listed ∷ l) fresh careful))
    | inr failed ↦ rw failed (record { careful = careful; tells = fresh })
  ]
