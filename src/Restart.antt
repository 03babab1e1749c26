-- ===== src/Restart.antt =====
-- restart.go, restart_helpers.go and compose_groups.go: the containers that run replaced images,
-- and those that depend on them, are restarted.
mod Scan
mod Groups
mod Sequence
mod Outcomes
mod Standalone
mod Dispatch
mod Execute
pub mod Closure
pub mod Ordering
pub mod Explicit
pub mod Quiet
pub mod Last
unfoldable pub use Scan.*
unfoldable pub use Sequence.*
unfoldable pub use Groups.*
unfoldable pub use Outcomes.*
unfoldable pub use Standalone.*
unfoldable pub use Dispatch.*
unfoldable pub use Execute.*
