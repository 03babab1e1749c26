-- ===== src/Tests.antt =====
-- The theorems at concrete inputs.
mod Data
pub mod Labels
pub mod Records
pub mod Sorting
pub mod Statuses
pub mod Restarts
pub mod Containers
pub mod Runs
mod Registry
mod Defaults
