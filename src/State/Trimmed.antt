-- ===== src/State/Trimmed.antt =====
-- The bounds that `prune` of scripts/source/state.go keeps: how many entries it leaves.
use text.Mathlib.TextPositions.{eq_refl}
use codex_auto_retry.Prelude.{
  ℕ, zero, suc, ◌+◌, ◌-◌, ◌≤◌, ◌≡◌, refl, arith, String, true, false, not, List, [], ◌∷◌, some,
  ◌==◌, eq_iff, Time, Table, entry, delete, has_entry, entry-delete, All, Fresh, UniqueKeys,
  delete-UniqueKeys, Bool-cases, inl, inr, length, before,
}
use codex_auto_retry.Model.{FileCursor}
use codex_auto_retry.State.Prune.{
  Aged, is_older, insert_aged, sort_aged, aged_entries, delete_first, trim_entries, prune_events,
  prune_files, days, max_processed_event_entries, max_file_cursor_entries,
}
use codex_auto_retry.State.Kept.{
  NotAged, insert_aged-All, sort_aged-All, keep_entries-UniqueKeys, Fresh-NotAged,
}

-- No key stands twice.
abbrev DistinctAged : List Aged → Type 0
DistinctAged [] = Unit
DistinctAged (x ∷ rest) = NotAged x.key rest × DistinctAged rest

insert_aged-Distinct :
    (x : Aged) (items : List Aged)
    → NotAged x.key items
    → DistinctAged items
    → DistinctAged (insert_aged x items)
unfolding insert_aged
insert_aged-Distinct x [] f d = (tt, tt)
insert_aged-Distinct x (y ∷ rest) f d = elim (Bool-cases (is_older y x)) [
  | inl e ↦
      let apart : (y.key == x.key) ≡ false =
        ground (arith, f.0, eq_iff y.key x.key, eq_iff x.key y.key) in
      rw e (
        insert_aged-All (λ z. (y.key == z.key) ≡ false) x rest apart d.0,
        insert_aged-Distinct x rest f.1 d.1,
      )
  | inr e ↦ rw e (f, d)
]

sort_aged-Distinct : (items : List Aged) → DistinctAged items → DistinctAged (sort_aged items)
unfolding sort_aged
sort_aged-Distinct [] d = tt
sort_aged-Distinct (x ∷ rest) d =
    insert_aged-Distinct x (sort_aged rest) (sort_aged-All _ rest d.0) (sort_aged-Distinct rest d.1)

length-insert_aged :
    (x : Aged) (items : List Aged) → length (insert_aged x items) ≡ suc (length items)
unfolding insert_aged
length-insert_aged x [] = refl
length-insert_aged x (y ∷ rest) = ground (arith, length-insert_aged x rest)

length-sort_aged : (items : List Aged) → length (sort_aged items) ≡ length items
unfolding sort_aged
length-sort_aged [] = refl
length-sort_aged (x ∷ rest) =
    omega (arith, length-insert_aged x (sort_aged rest), length-sort_aged rest)

module _ {ℓ} {V : Type ℓ} where
  length-delete-Fresh : (m : Table V) (k : String) → Fresh k m → length (delete m k) ≡ length m
  unfolding delete
  length-delete-Fresh [] k f = refl
  length-delete-Fresh ((i, w) ∷ rest) k f = ground (arith, f.0, length-delete-Fresh rest k f.1)

  length-delete :
      (m : Table V) (k : String)
      → UniqueKeys m
      → has_entry m k ≡ true
      → suc (length (delete m k)) ≡ length m
  unfolding delete entry
  length-delete [] k u h = absurd (cc)
  length-delete ((i, w) ∷ rest) k u h = elim (Bool-cases (k == i)) [
    | inl hit ↦
        let key : k ≡ i = (eq_iff k i).0 hit in
        rw hit (rw key (omega (arith, length-delete-Fresh rest i u.0)))
    | inr miss ↦ rw miss (omega (arith, length-delete rest k u.1 (rw miss at h)))
  ]

  present_later :
      (m : Table V) (k : String) (items : List Aged)
      → NotAged k items
      → All (λ x. has_entry m x.key ≡ true) items
      → All (λ x. has_entry (delete m k) x.key ≡ true) items
  present_later m k [] f h = tt
  present_later m k (x ∷ rest) f h =
      let apart : (x.key == k) ≡ false = ground (arith, f.0, eq_iff x.key k, eq_iff k x.key) in
      (rw (entry-delete m k x.key, apart) h.0, present_later m k rest f.1 h.1)

  length-delete_first :
      (n : ℕ) (items : List Aged) (m : Table V)
      → n ≤ length items
      → UniqueKeys m
      → DistinctAged items
      → All (λ x. has_entry m x.key ≡ true) items
      → length (delete_first n items m) + n ≡ length m
  unfolding delete_first
  length-delete_first zero items m le u d h = omega arith
  length-delete_first (suc n) [] m le u d h = absurd (omega arith)
  length-delete_first (suc n) (x ∷ rest) m le u d h = omega (
    arith,
    length-delete m x.key u h.0,
    length-delete_first n rest (delete m x.key) (omega arith) (delete-UniqueKeys m x.key u) d.1
        (present_later m x.key rest d.0 h.1),
  )

  length-aged_entries :
      (at : V → Time) (m : Table V) → length (aged_entries (λ v. some (at v)) m) ≡ length m
  unfolding aged_entries
  length-aged_entries at [] = refl
  length-aged_entries at ((i, w) ∷ rest) = omega (arith, length-aged_entries at rest)

  aged_entries-Distinct :
      (at : V → Time) (m : Table V)
      → UniqueKeys m
      → DistinctAged (aged_entries (λ v. some (at v)) m)
  unfolding aged_entries
  aged_entries-Distinct at [] u = tt
  aged_entries-Distinct at ((i, w) ∷ rest) u =
      (Fresh-NotAged (λ v. some (at v)) rest i u.0, aged_entries-Distinct at rest u.1)

  present_cons :
      (m : Table V) (i : String) (w : V) (items : List Aged)
      → All (λ x. has_entry m x.key ≡ true) items
      → All (λ x. has_entry ((i, w) ∷ m) x.key ≡ true) items
  unfolding entry
  present_cons m i w [] h = tt
  present_cons m i w (x ∷ rest) h = (ground (arith, h.0), present_cons m i w rest h.1)

  aged_entries_present :
      (at : V → Time) (m : Table V)
      → All (λ x. has_entry m x.key ≡ true) (aged_entries (λ v. some (at v)) m)
  unfolding aged_entries entry
  aged_entries_present at [] = tt
  aged_entries_present at ((i, w) ∷ rest) =
      (rw (eq_refl i), present_cons rest i w _ (aged_entries_present at rest))

  length-trim_entries :
      (at : V → Time) (limit : ℕ) (m : Table V)
      → UniqueKeys m
      → length (trim_entries at limit m) ≤ limit
  unfolding trim_entries
  length-trim_entries at limit m u =
      let items = aged_entries (λ v. some (at v)) m in
      let many = length-aged_entries at m in
      let sorted = length-sort_aged items in
      let fewer =
        length-delete_first (length (sort_aged items) - limit) (sort_aged items) m (omega arith) u
          (sort_aged-Distinct items (aged_entries-Distinct at m u))
          (sort_aged-All _ items (aged_entries_present at m)) in
      ground (arith, many, sorted, fewer)

-- Pruning leaves at most 20000 processed events and at most 2000 file cursors, however many there were.
pub prune_bounds :
    (now : Time) (events : Table Time) (files : Table FileCursor)
    → UniqueKeys events
    → UniqueKeys files
    → (length (prune_events now events) ≤ max_processed_event_entries)
      × (length (prune_files now files) ≤ max_file_cursor_entries)
unfolding prune_events prune_files
prune_bounds now events files u w = (
  length-trim_entries (λ at. at) max_processed_event_entries _
      (keep_entries-UniqueKeys (λ at. not (before at (now - days 14))) events u),
  length-trim_entries (λ cursor. cursor.last_seen) max_file_cursor_entries _
      (keep_entries-UniqueKeys (λ cursor. not (before cursor.last_seen (now - days 45))) files w),
)
