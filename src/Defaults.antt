-- ===== src/Defaults.antt =====
-- defaults.go and default_auth.go: the ports that a service gets where none are given. The file of
-- Docker's credentials is read by Docker's own package.
pub mod Auth
pub mod Ports
pub mod Credentials
pub mod Resolver
