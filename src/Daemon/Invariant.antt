-- ===== src/Daemon/Invariant.antt =====
-- Every operation of the daemon keeps all of its threads well-formed.
pub mod Loops
pub mod Controller
pub mod Events
pub mod Jobs
pub mod Dispatches
pub mod Collected
pub mod Ticks
