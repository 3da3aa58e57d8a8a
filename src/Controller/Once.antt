-- ===== src/Controller/Once.antt =====
-- What a dispatch of scripts/source/shared_controller.go tells of the starts that Codex has accepted, over
-- whichever channel.
use codex_auto_retry.Prelude.{
  ◌≡◌, refl, arith, String, Bool, not, ◌&&◌, [], ◌==◌, Bool-cases, inl, inr,
}
use codex_auto_retry.Events.Notices.{is_recovery_event_id}
use codex_auto_retry.Policy.{is_empty_response}
use codex_auto_retry.Controller.Preflight.{Transport, official_ipc, shared_server, preflight}
use codex_auto_retry.Resume.{ResumeSettings}
use codex_auto_retry.Controller.Errors.{RpcError}
use codex_auto_retry.Controller.{
  Log, Reply, answer, refusal, Codex, result, error, Step, more, stop, continue, Exec,
}
use codex_auto_retry.Controller.Quiet.{Quiet, preflight-Quiet}
use codex_auto_retry.Controller.Dispatch.{Request}
use codex_auto_retry.Controller.Dispatch.Channels.{
  dispatch, dispatch_over, dispatch_over_ipc, start_over_ipc, notify_with, notify_parent,
  notify_over_ipc,
}
use codex_auto_retry.Controller.Dispatch.Safe.{dispatch_over_server-Concluded}
use codex_auto_retry.Controller.Dispatch.Careful.{starts, StartsCarefully, Tells}

module _ (codex : Codex) where
  preflight-Fresh :
      (req : Request) (notified : Bool) (l : Log)
      → starts l ≡ 0
      → StartsCarefully req l
      → (starts (preflight codex notified l).1 ≡ 0)
        × StartsCarefully req (preflight codex notified l).1
  unfolding preflight
  preflight-Fresh req notified l fresh careful = ground arith

  module _ (req : Request) where
    start_over_ipc-Tells :
        (notified : Bool) (l : Log)
        → starts l ≡ 0
        → let r = start_over_ipc codex req notified l in Tells r.0 r.1
    start_over_ipc-Tells notified l fresh = ground arith

    notify_with-Quiet :
        (parent : String) (settings : Reply RpcError ResumeSettings) (l : Log)
        → starts l ≡ 0
        → let r = notify_with codex req parent settings l in Quiet r.0 × (starts r.1 ≡ 0)
    notify_with-Quiet parent (answer settings) l fresh = ground arith
    notify_with-Quiet parent (refusal e) l fresh = (refl, fresh)

    notify_parent-Quiet :
        (parent : Reply (Unit {0}) String) (l : Log)
        → starts l ≡ 0
        → let r = notify_parent codex req parent l in Quiet r.0 × (starts r.1 ≡ 0)
    notify_parent-Quiet (refusal e) l fresh = (refl, fresh)
    notify_parent-Quiet (answer parent) l fresh = elim (Bool-cases (parent == "")) [
      | inl top ↦ rw top (tt, fresh)
      | inr child ↦
          rw child (notify_with-Quiet parent (codex.settings_for req.codex_home parent) l fresh)
    ]

    notify_over_ipc-Quiet :
        (l : Log)
        → starts l ≡ 0
        → let r = notify_over_ipc codex req l in Quiet r.0 × (starts r.1 ≡ 0)
    notify_over_ipc-Quiet l fresh =
        let told =
          is_empty_response req.failure_class
          && not req.parent_notified
          && is_recovery_event_id req.recovery_event_id in
        elim (Bool-cases told) [
          | inl e ↦
              rw e (notify_parent-Quiet (codex.parent_of req.codex_home req.thread_id) l fresh)
          | inr e ↦ rw e (tt, fresh)
        ]

    continue-Tells :
        {A : Type 0} (r : Step A) (l : Log) (f : A → Exec (Unit {0}))
        → Quiet r
        → starts l ≡ 0
        → ((a : A) → Tells (f a l).0 (f a l).1)
        → Tells (continue r l f).0 (continue r l f).1
    continue-Tells (more a) l f quiet fresh go = go a
    continue-Tells (stop (error e)) l f quiet fresh go = fresh
    continue-Tells (stop (result r)) l f quiet fresh go = rw quiet fresh

    dispatch_over_ipc-Tells :
        (l : Log) → starts l ≡ 0 → let r = dispatch_over_ipc codex req l in Tells r.0 r.1
    unfolding dispatch_over_ipc
    dispatch_over_ipc-Tells l fresh = elim (Bool-cases codex.has_ipc) [
      | inl e ↦
          let (quiet, fresh') = notify_over_ipc-Quiet l fresh in
          rw e (
            continue-Tells _ _ (start_over_ipc codex req) quiet fresh'
              (λ notified. start_over_ipc-Tells notified _ fresh'))
      | inr e ↦ rw e fresh
    ]

    dispatch_over-Tells :
        (transport : Transport) (l : Log)
        → starts l ≡ 0
        → StartsCarefully req l
        → let r = dispatch_over codex req transport l in Tells r.0 r.1
    unfolding dispatch_over
    dispatch_over-Tells official_ipc l fresh careful = dispatch_over_ipc-Tells l fresh
    dispatch_over-Tells shared_server l fresh careful =
        (dispatch_over_server-Concluded codex req l fresh careful).tells

    -- Over whichever channel, Codex accepts at most one start of a dispatch, of a turn or of the goal: exactly
    -- one if the answer says that the retry was sent, unless the goal was active already, and none if it
    -- says otherwise or is an error. What Codex did with a call that it has not answered is not counted.
    pub dispatch-Tells : let r = dispatch codex req [] in Tells r.0 r.1
    unfolding dispatch
    dispatch-Tells = elim (Bool-cases (codex.supports_home req.codex_home)) [
      | inl e ↦
          let (fresh, careful) = preflight-Fresh req req.parent_notified [] refl tt in
          rw e (
            continue-Tells _ _ (dispatch_over codex req)
              (preflight-Quiet codex req.parent_notified []) fresh
              (λ transport. dispatch_over-Tells transport _ fresh careful))
      | inr e ↦ rw e refl
    ]
