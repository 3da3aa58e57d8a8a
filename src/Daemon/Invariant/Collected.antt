-- ===== src/Daemon/Invariant/Collected.antt =====
-- `dispatchDueLocked` of scripts/source/daemon.go keeps every thread well-formed: its candidates are the
-- pending retries of distinct threads.
use codex_auto_retry.Prelude.{
  ℕ, zero, suc, ◌-◌, ◌≡◌, refl, ◌∙◌, ap, String, Bool, true, false, List, [], ◌∷◌, Option, none,
  some, arith, Time, Table, All, entry, entry-assign, UniqueKeys, UniqueKeys-Found, Found, Fresh,
  ◌==◌, ◌||◌, eqb, length, if◌then◌else◌,
}
use codex_auto_retry.Model.{ThreadState, PendingRetry, GoalStopRequest}
use codex_auto_retry.Digest.{Digest}
use codex_auto_retry.Thread.Queue.{Selection, replies, candidate, select_due}
use codex_auto_retry.Thread.WellFormed.Queue.{
  stop_due-Keeps, SelectsWellFormed, select_due-SelectsWellFormed,
}
use codex_auto_retry.Daemon.{Daemon, RetryJob, thread_or_zero, apply_reply, is_active, write_thread}
use codex_auto_retry.Daemon.Dispatch.{
  Due, activate, goal_block_job, start_goal_blocks, note_selection, collect_candidates,
  dispatch_recoveries, dispatch_due, no_transport_reason, no_transport,
}
use codex_auto_retry.Daemon.SortedDue.{sort_due-All}
use codex_auto_retry.Daemon.Invariant.Loops.{
  AllWellFormed, WellFormedThreads, apply_reply-AllWellFormed, over_threads-AllWellFormed,
}
use codex_auto_retry.Daemon.Invariant.Dispatches.{
  IsReady, NotDue, DistinctDue, IsReady-assign, sort_due-DistinctDue,
  start_recoveries-AllWellFormed,
}

-- What the collection from `part` of the threads of `d` has found.
record Collected (d : Daemon) (part : Table ThreadState) (r : Daemon × List (Due PendingRetry))
    : Type 0 where
  sound : AllWellFormed r.0
  ready : All (IsReady r.0.threads) r.1
  distinct : DistinctDue r.1
  elsewhere : (id : String) → Fresh id part → NotDue id r.1
  untouched : (id : String) → Fresh id part → entry r.0.threads id ≡ entry d.threads id

IsReady-write :
    (threads : Table ThreadState) (id : String) (stored : Option ThreadState)
    (dues : List (Due PendingRetry))
    → NotDue id dues
    → All (IsReady threads) dues
    → All (IsReady (write_thread threads id stored)) dues
IsReady-write threads id none dues n h = h
IsReady-write threads id (some t) dues n h = IsReady-assign threads id t dues n h

entry-write :
    (threads : Table ThreadState) (id j : String) (stored : Option ThreadState)
    → (j == id) ≡ false
    → entry (write_thread threads id stored) j ≡ entry threads j
entry-write threads id j none e = refl
entry-write threads id j (some t) e = ground (arith, entry-assign threads id j t)

note_selection-Collected :
    (d : Daemon) (id : String) (t : ThreadState) (part : Table ThreadState) (s : Selection)
    (r : Daemon × List (Due PendingRetry))
    → Fresh id part
    → entry d.threads id ≡ some t
    → SelectsWellFormed t s
    → Collected d part r
    → Collected d ((id, t) ∷ part) (note_selection id s r)
unfolding apply_reply
note_selection-Collected d id t part (replies reply) (d', found) f e k c = record {
  sound = apply_reply-AllWellFormed d' id reply c.sound k;
  ready = IsReady-write d'.threads id reply.stored found (c.elsewhere id f) c.ready;
  distinct = c.distinct;
  elsewhere = λ j g. c.elsewhere j g.1;
  untouched = λ j g. entry-write d'.threads id j reply.stored g.0 ∙ c.untouched j g.1;
}
note_selection-Collected d id t part (candidate p) (d', found) f e k c = record {
  sound = c.sound;
  ready = (ap (λ o. (thread_or_zero o).pending) (c.untouched id f ∙ e) ∙ k, c.ready);
  distinct = (c.elsewhere id f, c.distinct);
  elsewhere = λ j g. (g.0, c.elsewhere j g.1);
  untouched = λ j g. c.untouched j g.1;
}

collect_candidates-Collected :
    (d : Daemon) (now : Time) (part : Table ThreadState)
    → AllWellFormed d
    → WellFormedThreads part
    → UniqueKeys part
    → Found d.threads part
    → Collected d part (collect_candidates d now part)
unfolding collect_candidates
collect_candidates-Collected d now [] h w u f = record {
  sound = h;
  ready = tt;
  distinct = tt;
  elsewhere = λ id g. tt;
  untouched = λ id g. refl;
}
collect_candidates-Collected d now ((id, t) ∷ rest) h w u f =
    note_selection-Collected d id t rest (select_due now (is_active d id) t)
      (collect_candidates d now rest) u.0 f.0
      (select_due-SelectsWellFormed now (is_active d id) t w.0)
      (collect_candidates-Collected d now rest h w.1 u.1 f.1)

choose_pair :
    (b : Bool) (x y : Daemon × List RetryJob)
    → AllWellFormed x.0
    → AllWellFormed y.0
    → AllWellFormed (if b then x else y).0
choose_pair true x y h k = h
choose_pair false x y h k = k

start_goal_blocks-AllWellFormed :
    (n : ℕ) (items : List (Due GoalStopRequest)) (d : Daemon)
    → AllWellFormed d
    → AllWellFormed (start_goal_blocks n items d).0
unfolding start_goal_blocks
start_goal_blocks-AllWellFormed zero items d h = h
start_goal_blocks-AllWellFormed (suc n) [] d h = h
start_goal_blocks-AllWellFormed (suc n) (due ∷ rest) d h =
    start_goal_blocks-AllWellFormed n rest (activate d (goal_block_job d due)) h

module _ (digest : Digest) (now : Time) where
  dispatch_recoveries-AllWellFormed :
      (available : ℕ) (d : Daemon)
      → AllWellFormed d
      → AllWellFormed (dispatch_recoveries digest now available d).0
  unfolding dispatch_recoveries
  dispatch_recoveries-AllWellFormed available d h =
      let c =
        collect_candidates-Collected d now d.threads h h.0 h.1 (UniqueKeys-Found d.threads h.1) in
      choose_pair (eqb available 0 || d.paused) (d, []) _ h
        (choose_pair (no_transport d) _ _
          (over_threads-AllWellFormed _
            (λ id t v. stop_due-Keeps d.config now t v (no_transport_reason d)) d d.threads h h.0)
          (start_recoveries-AllWellFormed digest now available _ _ c.sound
            (sort_due-All (λ p. p.due_at) _ _ c.ready)
            (sort_due-DistinctDue (λ p. p.due_at) _ c.distinct)))

  pub dispatch_due-AllWellFormed :
      (d : Daemon) → AllWellFormed d → AllWellFormed (dispatch_due digest now d).0
  unfolding dispatch_due
  dispatch_due-AllWellFormed d h =
      choose_pair (eqb (d.config.max_parallel_retries - length d.active) 0) (d, []) _ h
        (dispatch_recoveries-AllWellFormed _ _ (start_goal_blocks-AllWellFormed _ _ d h))
