-- ===== src/Management/Panel.antt =====
-- The panel of scripts/source/management.go agrees with the daemon.
use codex_auto_retry.Prelude.{
  ◌≤◌, ◌≡◌, arith, String, true, some, Time, is_some, All, entry, UniqueKeys, Table, length, inr,
}
use codex_auto_retry.Model.{ThreadState, StoppedRetry}
use codex_auto_retry.Config.{Config}
use codex_auto_retry.Thread.Control.{
  ControlAction, command_retry_now, command_cancel_retry, command_restart_retry,
  apply_control_command, restart_stopped,
}
use codex_auto_retry.State.Prune.{prune_threads}
use codex_auto_retry.State.Kept.{RecentStop, prune_threads_keeps}
use codex_auto_retry.Thread.WellFormed.{IsWellFormed}
use codex_auto_retry.Management.Queue.{accepts_command, stopped_retry_is_visible, thread_views}

-- The panel accepts exactly the commands that the daemon, on the same thread, acts on.
pub accepts_command-apply_control_command :
    (config : Config) (action : ControlAction) (now : Time) (t : ThreadState)
    → accepts_command action (some t) ≡ is_some (apply_control_command config action now t).stored
unfolding accepts_command apply_control_command restart_stopped
accepts_command-apply_control_command config command_retry_now now t = ground arith
accepts_command-apply_control_command config command_cancel_retry now t = ground arith
accepts_command-apply_control_command config command_restart_retry now t = ground arith

visible-RecentStop :
    (now : Time) (s : StoppedRetry)
    → stopped_retry_is_visible now s ≡ true
    → 1 ≤ s.stopped_at
    → RecentStop now (some s)
unfolding stopped_retry_is_visible
visible-RecentStop now s shown set = ground (arith, shown, set)

-- A stopped retry that the panel shows, with the time at which it stopped, is not pruned, however many
-- threads there are: it can still be restarted.
pub prune_threads_visible :
    (now : Time) (threads : Table ThreadState) (id : String) (t : ThreadState) (s : StoppedRetry)
    → UniqueKeys threads
    → entry threads id ≡ some t
    → t.stopped ≡ some s
    → stopped_retry_is_visible now s ≡ true
    → 1 ≤ s.stopped_at
    → entry (prune_threads now threads) id ≡ some t
prune_threads_visible now threads id t s unique found stop shown set =
    prune_threads_keeps now threads id t unique found
      (inr (rw stop (visible-RecentStop now s shown set)))

-- A well-formed thread has at most one line in the panel, whose buttons are the commands that are
-- accepted for it.
pub thread_views-accepts_command :
    (format_time : Time → String) (now : Time) (id : String) (t : ThreadState)
    → IsWellFormed t
    → let views = thread_views format_time now id t in
      (length views ≤ 1)
      × All
          (λ v.
            (v.can_retry_now ≡ accepts_command command_retry_now (some t))
            × (v.can_cancel ≡ accepts_command command_cancel_retry (some t))
            × (v.can_restart ≡ accepts_command command_restart_retry (some t)))
          views
unfolding thread_views accepts_command
thread_views-accepts_command format_time now id t v = ground arith
