-- ===== src/ComposeUpdater.antt =====
-- compose_updater.go: a compose project is updated by the docker command line. The provider of the
-- Docker client never answers a nil client here; the code would panic at one.
pub mod Output
pub mod Services
pub mod Update
pub mod Bytes
pub mod Firsts
pub mod Commands
