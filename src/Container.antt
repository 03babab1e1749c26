-- ===== src/Container.antt =====
-- container.go: one container is updated: it is stopped, removed, and created again from the new
-- image, and the old image takes its place where that fails.
mod Settings
mod Rebuild
mod Update
pub mod Labels
pub mod Rollback
pub mod DryRun
pub mod Cleanup
pub mod Quiet
unfoldable pub use Settings.*
unfoldable pub use Rebuild.*
unfoldable pub use Update.*
