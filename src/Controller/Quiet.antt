-- ===== src/Controller/Quiet.antt =====
-- The steps of scripts/source/shared_controller.go that send nothing.
use codex_auto_retry.Prelude.{◌≡◌, arith, Bool, false}
use codex_auto_retry.Runner.{is_dispatched}
use codex_auto_retry.Controller.Preflight.{preflight}
use codex_auto_retry.Controller.{Log, Codex, result, error, Step, more, stop}

-- A step that goes on, fails, or answers that nothing was sent.
abbrev pub Quiet : {A : Type 0} → Step A → Type 0
Quiet (more _) = Unit
Quiet (stop (error e)) = Unit
Quiet (stop (result r)) = is_dispatched r.outcome ≡ false

pub preflight-Quiet :
    (codex : Codex) (notified : Bool) (l : Log) → Quiet (preflight codex notified l).0
unfolding preflight
preflight-Quiet codex notified l = ground arith
