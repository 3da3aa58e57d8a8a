-- ===== src/Tests.antt =====
-- Runs of the model on concrete inputs, and each theorem's application to one.
pub mod Data
mod Threads
mod Recoveries
mod Daemons
mod Fallbacks
mod Files
mod Runs
mod Panels
mod Lines
mod Controllers
