-- ===== src/State.antt =====
-- scripts/source/state.go: what is loaded, and what is pruned, of the durable state.
pub mod Prune
pub mod Load
pub mod Merge
pub mod Merged
pub mod Kept
pub mod Loaded
pub mod Trimmed
