-- ===== src/State/Prune.antt =====
-- `prune` of scripts/source/state.go and the functions that it calls.
use codex_auto_retry.Prelude.{
  ℕ, zero, suc, ◌-◌, ◌*◌, String, Bool, true, false, not, ◌&&◌, ◌||◌, List, [], ◌∷◌, Option, none,
  some, ltb, leb, eqb, is_some, length, if◌then◌else◌, Time, Duration, minute, is_zero, before,
  after, Table, delete,
}
use codex_auto_retry.Text.{Text, codes}
use codex_auto_retry.Model.{ThreadState, StoppedRetry, GoalStopRequest, FileCursor}
use codex_auto_retry.Thread.Awaiting.{stopped_retry_display_window}

abbrev pub max_processed_event_entries : ℕ
max_processed_event_entries = 20000

abbrev pub max_file_cursor_entries : ℕ
max_file_cursor_entries = 2000

abbrev pub max_thread_entries : ℕ
max_thread_entries = 500

abbrev pub days : ℕ → Duration
days n = n * 24 * 60 * minute

-- `a < b` on texts. Go compares bytes, which orders UTF-8 as the code points are ordered.
unfoldable pub text_before : Text → Text → Bool
text_before s [] = false
text_before [] (d ∷ t) = true
text_before (c ∷ s) (d ∷ t) = ltb c d || (eqb c d && text_before s t)

-- An entry that may be removed, with the time by which it is sorted.
pub record Aged : Type 0 where
  pub key : String
  pub at : Time

unfoldable pub is_older : Aged → Aged → Bool
unfolding text_before
is_older a b = if eqb a.at b.at then text_before (codes a.key) (codes b.key) else before a.at b.at

unfoldable pub insert_aged : Aged → List Aged → List Aged
insert_aged x [] = x ∷ []
insert_aged x (y ∷ rest) = if is_older y x then y ∷ insert_aged x rest else x ∷ y ∷ rest

unfoldable pub sort_aged : List Aged → List Aged
sort_aged [] = []
sort_aged (x ∷ rest) = insert_aged x (sort_aged rest)

module _ {ℓ} {V : Type ℓ} where
  -- A loop over a map that deletes the entries it does not keep.
  unfoldable pub keep_entries : (V → Bool) → Table V → Table V
  keep_entries keep [] = []
  keep_entries keep ((key, v) ∷ rest) =
      let kept = keep_entries keep rest in if keep v then (key, v) ∷ kept else kept

  -- The entries that may be removed, each with its time.
  unfoldable pub aged_entries : (V → Option Time) → Table V → List Aged
  aged_entries age [] = []
  aged_entries age ((key, v) ∷ rest) = elim (age v) [
    | none ↦ aged_entries age rest
    | some at ↦ record { key = key; at = at } ∷ aged_entries age rest
  ]

  -- `for _, item := range entries[:n] { delete(m, item.key) }`
  unfoldable pub delete_first : ℕ → List Aged → Table V → Table V
  delete_first zero entries m = m
  delete_first (suc n) [] m = m
  delete_first (suc n) (x ∷ rest) m = delete_first n rest (delete m x.key)

  -- `trimProcessedEvents` and `trimFileCursors`
  unfoldable pub trim_entries : (V → Time) → ℕ → Table V → Table V
  trim_entries at limit m =
      let oldest_first = sort_aged (aged_entries (λ v. some (at v)) m) in
      if leb (length m) limit then m else delete_first (length oldest_first - limit) oldest_first m

abbrev pub later : Time → Time → Time
later t at = if after t at then t else at

abbrev pub stopped_later : Option StoppedRetry → Time → Time
stopped_later none at = at
stopped_later (some stopped) at = later stopped.stopped_at at

abbrev pub requested_later : Option GoalStopRequest → Time → Time
requested_later none at = at
requested_later (some request) at = later request.requested_at at

-- The chain of tests that `prune` and `trimInactiveThreads` share.
unfoldable pub last_activity : ThreadState → Time
last_activity thread = requested_later thread.goal_stop (
    stopped_later thread.stopped (
      later thread.last_aborted_at
        (later thread.goal_observed_at (later thread.goal_updated_at thread.last_failure_at))))

abbrev pub has_retry : ThreadState → Bool
has_retry thread = is_some thread.pending || is_some thread.awaiting

unfoldable pub keeps_thread : Time → ThreadState → Bool
unfolding last_activity
keeps_thread cutoff thread =
    has_retry thread || is_zero (last_activity thread) || not (before (last_activity thread) cutoff)

-- A stopped entry that the panel still shows.
abbrev pub is_visible_stop : Time → Option StoppedRetry → Bool
is_visible_stop now none = false
is_visible_stop now (some stopped) =
    not stopped.historical
    && (is_zero stopped.stopped_at || leb (now - stopped.stopped_at) stopped_retry_display_window)

unfoldable pub removable_since : Time → ThreadState → Option Time
unfolding last_activity
removable_since now thread =
    if has_retry thread || is_visible_stop now thread.stopped
    then none
    else some (last_activity thread)

abbrev pub at_most : ℕ → ℕ → ℕ
at_most limit n = if ltb limit n then limit else n

unfoldable pub trim_inactive_threads : ℕ → Time → Table ThreadState → Table ThreadState
trim_inactive_threads limit now threads =
    let oldest_first = sort_aged (aged_entries (removable_since now) threads) in
    if leb (length threads) limit || leb limit (length threads - length oldest_first)
    then threads
    else delete_first (at_most (length oldest_first) (length threads - limit)) oldest_first threads

unfoldable pub prune_events : Time → Table Time → Table Time
prune_events now events =
    trim_entries (λ at. at) max_processed_event_entries
      (keep_entries (λ at. not (before at (now - days 14))) events)

unfoldable pub prune_files : Time → Table FileCursor → Table FileCursor
prune_files now files =
    trim_entries (λ cursor. cursor.last_seen) max_file_cursor_entries
      (keep_entries (λ cursor. not (before cursor.last_seen (now - days 45))) files)

unfoldable pub prune_threads : Time → Table ThreadState → Table ThreadState
prune_threads now threads =
    trim_inactive_threads max_thread_entries now
      (keep_entries (keeps_thread (now - days 30)) threads)
