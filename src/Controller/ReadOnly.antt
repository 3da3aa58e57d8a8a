-- ===== src/Controller/ReadOnly.antt =====
-- What `RetryThreadStatus` of scripts/source/shared_controller.go does to Codex, and what its answer rests on.
use codex_auto_retry.Prelude.{
  ◌≡◌, ◌≢◌, refl, arith, String, true, false, [], ◌∷◌, List, Option, none, some, Bool-cases, inl,
  inr, eq_iff,
}
use codex_auto_retry.Controller.{
  AppThread, desktop_checked, ipc_checked, server_ensured, loaded_listed, thread_read, refused, Log,
  Reply, answer, refusal, Codex, result, error, Step, more, stop,
}
use codex_auto_retry.Controller.Errors.{RpcError}
use codex_auto_retry.Controller.Preflight.{Transport, official_ipc, shared_server, preflight}
use codex_auto_retry.Controller.Dispatch.{has_item}
use codex_auto_retry.Controller.Status.{
  StatusError, Probe, after_read, after_listed, probed_over, retry_thread_status,
}

-- The calls change nothing of a thread: none resumes it, sets its goal, starts a turn or gives a notice.
abbrev pub ReadOnly : Log → Type 0
ReadOnly [] = Unit
ReadOnly (desktop_checked state ∷ l) = ReadOnly l
ReadOnly (ipc_checked ready ∷ l) = ReadOnly l
ReadOnly (server_ensured ∷ l) = ReadOnly l
ReadOnly (loaded_listed listed ∷ l) = ReadOnly l
ReadOnly (thread_read i thread ∷ l) = ReadOnly l
ReadOnly (refused ∷ l) = ReadOnly l
ReadOnly (_ ∷ l) = ⊥

-- The last call gave the answer.
abbrev pub Witnessed : String → Reply StatusError String → Log → Type 0
Witnessed id (refusal e) l = Unit
Witnessed id (answer s) (thread_read i (some thread) ∷ l) =
    (i ≡ id) × (thread.status ≡ s) × (s ≢ "")
Witnessed id (answer s) (loaded_listed listed ∷ l) = (s ≡ "unloaded") × (has_item id listed ≡ false)
Witnessed id (answer s) (ipc_checked true ∷ l) = s ≡ "active"
Witnessed id (answer s) _ = ⊥

abbrev OverIpc : Step Transport → Log → Type 0
OverIpc (more official_ipc) (ipc_checked true ∷ l) = Unit
OverIpc (more official_ipc) _ = ⊥
OverIpc (more shared_server) l = Unit
OverIpc (stop r) l = Unit

module _ (codex : Codex) where
  preflight-OverIpc :
      (l : Log)
      → ReadOnly l
      → ReadOnly (preflight codex false l).1
        × OverIpc (preflight codex false l).0 (preflight codex false l).1
  unfolding preflight
  preflight-OverIpc l quiet = ground arith

  module _ (id : String) where
    abbrev Told : Probe → Type 0
    Told probe = ReadOnly probe.1 × Witnessed id probe.0 probe.1

    after_read-Told :
        (reply : Reply RpcError (Option AppThread)) (l : Log)
        → ReadOnly l
        → Told (after_read codex id reply l)
    after_read-Told (refusal e) l quiet = (quiet, tt)
    after_read-Told (answer none) l quiet = (quiet, tt)
    after_read-Told (answer (some thread)) l quiet = ground (arith, eq_iff thread.status "")

    after_listed-Told :
        (reply : Reply RpcError (List String)) (l : Log)
        → ReadOnly l
        → Told (after_listed codex id reply l)
    after_listed-Told (refusal e) l quiet = (quiet, tt)
    after_listed-Told (answer listed) l quiet = elim (Bool-cases (has_item id listed)) [
      | inl e ↦ rw e (after_read-Told (codex.read_thread (loaded_listed listed ∷ l) id) _ quiet)
      | inr e ↦ rw e (quiet, (refl, e))
    ]

    probed_over-Told :
        (r : Step Transport) (l : Log) → ReadOnly l → OverIpc r l → Told (probed_over codex id r l)
    probed_over-Told (stop (error e)) l quiet over = (quiet, tt)
    probed_over-Told (stop (result r)) l quiet over = (quiet, tt)
    probed_over-Told (more official_ipc) (ipc_checked true ∷ l) quiet over = (quiet, refl)
    probed_over-Told (more official_ipc) _ quiet over = absurd over
    probed_over-Told (more shared_server) l quiet over = elim (Bool-cases (codex.dial l)) [
      | inl e ↦ rw e (after_listed-Told (codex.loaded l) l quiet)
      | inr e ↦ rw e (quiet, tt)
    ]

    -- The probe of a thread's status resumes no thread, sets no goal, starts no turn and gives no notice; and
    -- an answer is what the last call told of this thread: the status that was read, "unloaded" if the
    -- app-server does not list it, or "active" if only the desktop's own channel is there.
    pub retry_thread_status-ReadOnly :
        (codex_home : String)
        → let r = retry_thread_status codex id codex_home [] in ReadOnly r.1 × Witnessed id r.0 r.1
    unfolding retry_thread_status
    retry_thread_status-ReadOnly codex_home = elim (Bool-cases (codex.supports_home codex_home)) [
      | inl e ↦
          let (quiet, over) = preflight-OverIpc [] tt in rw e (probed_over-Told _ _ quiet over)
      | inr e ↦ rw e (tt, tt)
    ]
