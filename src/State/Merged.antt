-- ===== src/State/Merged.antt =====
-- Merging the stored states of a thread (scripts/source/state_migration.go) loses no retry.
use codex_auto_retry.Prelude.{◌≡◌, arith, ◌⊎◌, ◌||◌, is_some, ◌≤◌}
use codex_auto_retry.Model.{ThreadState}
use codex_auto_retry.State.Prune.{has_retry}
use codex_auto_retry.State.Merge.{migrated_rank, merge_migrated}

-- The merged state is one of the two; it has a retry that waits or is awaited exactly if one of them has,
-- an awaited one exactly if one of them has, and no other rank than the higher one.
pub merge_migrated-has_retry :
    (left right : ThreadState)
    → let merged = merge_migrated left right in
      ((merged ≡ left) ⊎ (merged ≡ right))
      × (has_retry merged ≡ (has_retry left || has_retry right))
      × (is_some merged.awaiting ≡ (is_some left.awaiting || is_some right.awaiting))
      × ((migrated_rank left).0 ≤ (migrated_rank merged).0)
      × ((migrated_rank right).0 ≤ (migrated_rank merged).0)
unfolding merge_migrated migrated_rank
merge_migrated-has_retry left right = ground arith
