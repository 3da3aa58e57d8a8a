-- ===== src/Management/Queue.antt =====
-- The list of retries that the panel of scripts/source/management.go shows, and the commands that it
-- accepts. The label is left out; `format_time` is the RFC 3339 layout of a due time.
use codex_auto_retry.Prelude.{
  ℕ, ◌+◌, ◌-◌, ◌/◌, String, Bool, true, false, not, ◌&&◌, List, [], ◌∷◌, ◌++◌, Option, none, some,
  ltb, leb, ◌==◌, is_some, if◌then◌else◌, Time, second, is_zero, after, Table,
}
use codex_auto_retry.Text.{codes}
use codex_auto_retry.Model.{
  FailureClass, RetryAction, no_action, PendingRetry, AwaitingRetry, StoppedRetry, ThreadState,
}
use codex_auto_retry.State.Prune.{text_before}
use codex_auto_retry.Thread.Awaiting.{stopped_retry_display_window}
use codex_auto_retry.Thread.Control.{
  ControlAction, command_retry_now, command_cancel_retry, command_restart_retry,
}

pub record ManagedRetry : Type 0 where
  pub thread_id : String
  pub state : String
  pub failure_class : FailureClass
  pub due_at : String
  pub seconds_remaining : ℕ
  pub recovery_attempt : ℕ
  pub max_recovery_attempts : ℕ
  pub consecutive_retry : ℕ
  pub max_consecutive_retries : ℕ
  pub action : RetryAction
  pub can_retry_now : Bool
  pub can_cancel : Bool
  pub can_restart : Bool
  pub stop_reason : String

unfoldable pub stopped_retry_is_visible : Time → StoppedRetry → Bool
stopped_retry_is_visible now stopped =
    if is_zero stopped.stopped_at
    then true
    else if stopped.historical
    then false
    else if not (is_zero stopped.failed_at)
        && not (after stopped.failed_at now)
        && ltb stopped_retry_display_window (now - stopped.failed_at)
    then false
    else if after stopped.stopped_at now
    then true
    else leb (now - stopped.stopped_at) stopped_retry_display_window

module _ (format_time : Time → String) (now : Time) (id : String) where
  abbrev pub pending_view : Option PendingRetry → List ManagedRetry
  pending_view none = []
  pending_view (some pending) =
      record {
        thread_id = id;
        state = "pending";
        failure_class = pending.failure_class;
        due_at = format_time pending.due_at;
        seconds_remaining = (pending.due_at - now + second - 1) / second;
        recovery_attempt = pending.attempt;
        max_recovery_attempts = pending.max_attempts;
        consecutive_retry = pending.consecutive_retry;
        max_consecutive_retries = pending.max_consecutive;
        action = no_action;
        can_retry_now = true;
        can_cancel = true;
        can_restart = false;
        stop_reason = "";
      }
      ∷ []

  abbrev pub awaiting_view : Option AwaitingRetry → List ManagedRetry
  awaiting_view none = []
  awaiting_view (some awaiting) =
      record {
        thread_id = id;
        state = if awaiting.retry_turn_id == "" then "starting" else "running";
        failure_class = awaiting.failure_class;
        due_at = "";
        seconds_remaining = 0;
        recovery_attempt = awaiting.attempt;
        max_recovery_attempts = awaiting.max_attempts;
        consecutive_retry = awaiting.consecutive_retry;
        max_consecutive_retries = awaiting.max_consecutive;
        action = awaiting.action;
        can_retry_now = false;
        can_cancel = false;
        can_restart = false;
        stop_reason = "";
      }
      ∷ []

  abbrev pub stopped_view : Option StoppedRetry → List ManagedRetry
  stopped_view none = []
  stopped_view (some stopped) =
      let shown : List ManagedRetry =
        record {
          thread_id = id;
          state = "stopped";
          failure_class = stopped.failure_class;
          due_at = "";
          seconds_remaining = 0;
          recovery_attempt = stopped.attempts;
          max_recovery_attempts = stopped.max_attempts;
          consecutive_retry = stopped.consecutive_retries;
          max_consecutive_retries = stopped.max_consecutive;
          action = no_action;
          can_retry_now = false;
          can_cancel = false;
          can_restart = true;
          stop_reason = stopped.reason;
        }
        ∷ [] in
      if stopped_retry_is_visible now stopped then shown else []

  unfoldable pub thread_views : ThreadState → List ManagedRetry
  thread_views thread =
      pending_view thread.pending ++ awaiting_view thread.awaiting ++ stopped_view thread.stopped

-- The comparison of the sort: what waits comes last, then by the text of the due time, then by thread.
unfoldable pub comes_first : ManagedRetry → ManagedRetry → Bool
comes_first a b =
    if not (a.state == b.state) && a.state == "pending"
    then false
    else if not (a.state == b.state) && b.state == "pending"
    then true
    else if not (a.due_at == b.due_at)
    then text_before (codes a.due_at) (codes b.due_at)
    else text_before (codes a.thread_id) (codes b.thread_id)

unfoldable pub insert_view : ManagedRetry → List ManagedRetry → List ManagedRetry
insert_view x [] = x ∷ []
insert_view x (y ∷ rest) = if comes_first y x then y ∷ insert_view x rest else x ∷ y ∷ rest

unfoldable pub sort_views : List ManagedRetry → List ManagedRetry
sort_views [] = []
sort_views (x ∷ rest) = insert_view x (sort_views rest)

unfoldable pub all_views : (Time → String) → Time → Table ThreadState → List ManagedRetry
unfolding thread_views
all_views format_time now [] = []
all_views format_time now ((id, thread) ∷ rest) =
    thread_views format_time now id thread ++ all_views format_time now rest

unfoldable pub managed_retries : (Time → String) → Time → Table ThreadState → List ManagedRetry
managed_retries format_time now threads = sort_views (all_views format_time now threads)

-- The test of `queueThreadCommand`, on the thread of the stored state.
unfoldable pub accepts_command : ControlAction → Option ThreadState → Bool
accepts_command action none = false
accepts_command command_restart_retry (some thread) = is_some thread.stopped
accepts_command command_retry_now (some thread) = is_some thread.pending
accepts_command command_cancel_retry (some thread) = is_some thread.pending
