-- ===== src/Apply.antt =====
-- apply.go: the pending image updates are pulled, and the containers of the replaced images
-- restarted.
mod Plans
mod Run
mod Failures
pub mod Clear
pub mod Reading
pub mod DryRun
pub mod Outcome
pub mod Tally
pub mod Counts
unfoldable pub use Plans.*
unfoldable pub use Run.*
