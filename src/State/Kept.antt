-- ===== src/State/Kept.antt =====
-- What `prune` of scripts/source/state.go never discards.
use codex_auto_retry.Prelude.{
  ℕ, zero, suc, ◌-◌, ◌≤◌, ◌≡◌, refl, ◌∙◌, arith, String, Bool, true, false, ◌||◌, List, [], ◌∷◌,
  Option, none, some, ◌==◌, eq_iff, Time, Table, entry, delete, entry-delete, All, Fresh,
  UniqueKeys, delete-All, delete-UniqueKeys, Bool-cases, Option-cases, inl, inr, ◌⊎◌, length, leb,
}
use codex_auto_retry.Model.{ThreadState, StoppedRetry, GoalStopRequest}
use codex_auto_retry.Thread.Awaiting.{stopped_retry_display_window}
use codex_auto_retry.State.Prune.{
  Aged, is_older, insert_aged, sort_aged, keep_entries, aged_entries, delete_first, has_retry,
  keeps_thread, last_activity, is_visible_stop, removable_since, at_most, trim_inactive_threads,
  prune_threads, days, max_thread_entries, later, stopped_later, requested_later,
}

-- No item has that key.
abbrev pub NotAged : String → List Aged → Type 0
NotAged key items = All (λ x. (key == x.key) ≡ false) items

pub insert_aged-All {κ} :
    (P : Aged → Type κ) (x : Aged) (items : List Aged)
    → P x
    → All P items
    → All P (insert_aged x items)
unfolding insert_aged
insert_aged-All P x [] p h = (p, tt)
insert_aged-All P x (y ∷ rest) p h = elim (Bool-cases (is_older y x)) [
  | inl e ↦ rw e (h.0, insert_aged-All P x rest p h.1)
  | inr e ↦ rw e (p, h)
]

pub sort_aged-All {κ} :
    (P : Aged → Type κ) (items : List Aged) → All P items → All P (sort_aged items)
unfolding sort_aged
sort_aged-All P [] h = tt
sort_aged-All P (x ∷ rest) h = insert_aged-All P x (sort_aged rest) h.0 (sort_aged-All P rest h.1)

module _ {ℓ} {V : Type ℓ} where
  entry-keep_entries :
      (keep : V → Bool) (m : Table V) (k : String) (v : V)
      → entry m k ≡ some v
      → keep v ≡ true
      → entry (keep_entries keep m) k ≡ some v
  unfolding entry keep_entries
  entry-keep_entries keep [] k v e h = e
  entry-keep_entries keep ((i, w) ∷ rest) k v e h =
      ground (arith, e, h, entry-keep_entries keep rest k v)

  keep_entries-All {κ} :
      (P : V → Type κ) (keep : V → Bool) (m : Table V)
      → All (λ e. P e.1) m
      → All (λ e. P e.1) (keep_entries keep m)
  unfolding keep_entries
  keep_entries-All P keep [] h = tt
  keep_entries-All P keep ((i, w) ∷ rest) h = ground (arith, keep_entries-All P keep rest h.1)

  keep_entries-Fresh :
      (keep : V → Bool) (m : Table V) (k : String) → Fresh k m → Fresh k (keep_entries keep m)
  unfolding keep_entries
  keep_entries-Fresh keep [] k f = tt
  keep_entries-Fresh keep ((i, w) ∷ rest) k f = ground (arith, keep_entries-Fresh keep rest k f.1)

  pub keep_entries-UniqueKeys :
      (keep : V → Bool) (m : Table V) → UniqueKeys m → UniqueKeys (keep_entries keep m)
  unfolding keep_entries
  keep_entries-UniqueKeys keep [] u = tt
  keep_entries-UniqueKeys keep ((i, w) ∷ rest) u =
      ground (arith, keep_entries-UniqueKeys keep rest u.1, keep_entries-Fresh keep rest i u.0)

  pub Fresh-NotAged :
      (age : V → Option Time) (m : Table V) (k : String)
      → Fresh k m
      → NotAged k (aged_entries age m)
  unfolding aged_entries
  Fresh-NotAged age [] k f = tt
  Fresh-NotAged age ((i, w) ∷ rest) k f = elim (Option-cases (age w)) [
    | inl e ↦ rw (e, aged_entries) (Fresh-NotAged age rest k f.1)
    | inr (at, e) ↦ rw (e, aged_entries) (f.0, Fresh-NotAged age rest k f.1)
  ]

  -- An entry without an age is no candidate.
  entry-NotAged :
      (age : V → Option Time) (m : Table V) (k : String) (v : V)
      → UniqueKeys m
      → entry m k ≡ some v
      → age v ≡ none
      → NotAged k (aged_entries age m)
  unfolding aged_entries entry
  entry-NotAged age [] k v u e h = tt
  entry-NotAged age ((i, w) ∷ rest) k v u e h = elim (Bool-cases (k == i)) [
    | inl hit ↦
        let found : some w ≡ some v = rw hit at e in
        let same : w ≡ v = cc in
        let key : k ≡ i = (eq_iff k i).0 hit in
        rw (same, h, aged_entries, key) (Fresh-NotAged age rest i u.0)
    | inr miss ↦
        let there : entry rest k ≡ some v = rw miss at e in
        let later = entry-NotAged age rest k v u.1 there h in
        elim (Option-cases (age w)) [
          | inl old ↦ rw (old, aged_entries) later
          | inr (at, old) ↦ rw (old, aged_entries) (miss, later)
        ]
  ]

  entry-delete_first :
      (n : ℕ) (items : List Aged) (m : Table V) (k : String)
      → NotAged k items
      → entry (delete_first n items m) k ≡ entry m k
  unfolding delete_first
  entry-delete_first zero items m k h = refl
  entry-delete_first (suc n) [] m k h = refl
  entry-delete_first (suc n) (x ∷ rest) m k h =
      entry-delete_first n rest (delete m x.key) k h.1 ∙ rw (entry-delete m x.key k, h.0)

  delete_first-All {κ} :
      (P : V → Type κ) (n : ℕ) (items : List Aged) (m : Table V)
      → All (λ e. P e.1) m
      → All (λ e. P e.1) (delete_first n items m)
  unfolding delete_first
  delete_first-All P zero items m h = h
  delete_first-All P (suc n) [] m h = h
  delete_first-All P (suc n) (x ∷ rest) m h =
      delete_first-All P n rest (delete m x.key) (delete-All P m x.key h)

  delete_first-UniqueKeys :
      (n : ℕ) (items : List Aged) (m : Table V) → UniqueKeys m → UniqueKeys (delete_first n items m)
  unfolding delete_first
  delete_first-UniqueKeys zero items m u = u
  delete_first-UniqueKeys (suc n) [] m u = u
  delete_first-UniqueKeys (suc n) (x ∷ rest) m u =
      delete_first-UniqueKeys n rest (delete m x.key) (delete-UniqueKeys m x.key u)

pub prune_threads-All {κ} :
    (P : ThreadState → Type κ) (now : Time) (m : Table ThreadState)
    → All (λ e. P e.1) m × UniqueKeys m
    → All (λ e. P e.1) (prune_threads now m) × UniqueKeys (prune_threads now m)
unfolding prune_threads trim_inactive_threads
prune_threads-All P now m h =
    let kept = keep_entries (keeps_thread (now - days 30)) m in
    let items = sort_aged (aged_entries (removable_since now) kept) in
    let n = at_most (length items) (length kept - max_thread_entries) in
    let all = keep_entries-All P (keeps_thread (now - days 30)) m h.0 in
    let unique = keep_entries-UniqueKeys (keeps_thread (now - days 30)) m h.1 in
    elim (Bool-cases (
      leb (length kept) max_thread_entries
      || leb max_thread_entries (length kept - length items))) [
        | inl e ↦ rw e (all, unique)
        | inr e ↦
            rw e (delete_first-All P n items kept all, delete_first-UniqueKeys n items kept unique)
      ]

-- The stopped entry that the panel shows, with a time that is set.
abbrev pub RecentStop : Time → Option StoppedRetry → Type 0
RecentStop now none = ⊥
RecentStop now (some stopped) =
    (stopped.historical ≡ false)
    × (1 ≤ stopped.stopped_at)
    × (now - stopped.stopped_at ≤ stopped_retry_display_window)

RecentStop-visible :
    (now : Time) (stopped : Option StoppedRetry)
    → RecentStop now stopped
    → is_visible_stop now stopped ≡ true
RecentStop-visible now (some s) h = ground arith
RecentStop-visible now none h = absurd h

stopped_later_recent :
    (now at : Time) (stopped : Option StoppedRetry)
    → RecentStop now stopped
    → (1 ≤ stopped_later stopped at) × (now - days 30 ≤ stopped_later stopped at)
stopped_later_recent now at (some s) h = ground arith
stopped_later_recent now at none h = absurd h

le-requested_later : (at : Time) (r : Option GoalStopRequest) → at ≤ requested_later r at
le-requested_later at none = omega arith
le-requested_later at (some r) = ground arith

RecentStop-active :
    (now : Time) (t : ThreadState)
    → RecentStop now t.stopped
    → (1 ≤ last_activity t) × (now - days 30 ≤ last_activity t)
unfolding last_activity
RecentStop-active now t h =
    let rest =
      later t.last_aborted_at
        (later t.goal_observed_at (later t.goal_updated_at t.last_failure_at)) in
    let (set, near) = stopped_later_recent now rest t.stopped h in
    let above = le-requested_later (stopped_later t.stopped rest) t.goal_stop in
    (omega (arith, set, above), omega (arith, near, above))

prune_threads_passes :
    (now : Time) (threads : Table ThreadState) (id : String) (t : ThreadState)
    → UniqueKeys threads
    → entry threads id ≡ some t
    → keeps_thread (now - days 30) t ≡ true
    → removable_since now t ≡ none
    → entry (prune_threads now threads) id ≡ some t
unfolding prune_threads trim_inactive_threads
prune_threads_passes now threads id t u e keep stay =
    let kept = keep_entries (keeps_thread (now - days 30)) threads in
    let items = aged_entries (removable_since now) kept in
    let there = entry-keep_entries (keeps_thread (now - days 30)) threads id t e keep in
    let unique = keep_entries-UniqueKeys (keeps_thread (now - days 30)) threads u in
    let spared = entry-NotAged (removable_since now) kept id t unique there stay in
    let n = at_most (length (sort_aged items)) (length kept - max_thread_entries) in
    elim (Bool-cases (
      leb (length kept) max_thread_entries
      || leb max_thread_entries (length kept - length (sort_aged items)))) [
        | inl c ↦ rw c there
        | inr c ↦
            rw c (
              entry-delete_first n (sort_aged items) kept id (sort_aged-All _ items spared) ∙ there)
      ]

-- However many threads there are, pruning keeps each one that waits for a retry or awaits one, and each
-- one that was stopped within the last hour, at a time that is set and not as historical, as it is.
-- Every thread stands once in the table.
pub prune_threads_keeps :
    (now : Time) (threads : Table ThreadState) (id : String) (t : ThreadState)
    → UniqueKeys threads
    → entry threads id ≡ some t
    → (has_retry t ≡ true) ⊎ RecentStop now t.stopped
    → entry (prune_threads now threads) id ≡ some t
unfolding keeps_thread removable_since
prune_threads_keeps now threads id t u e (inl busy) =
    prune_threads_passes now threads id t u e (rw busy) (rw busy)
prune_threads_keeps now threads id t u e (inr recent) =
    let (set, near) = RecentStop-active now t recent in
    let visible = RecentStop-visible now t.stopped recent in
    prune_threads_passes now threads id t u e (ground (arith, set, near)) (ground (arith, visible))
