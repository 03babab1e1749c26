-- ===== src/Service.antt =====
-- updater.go and the checks of errors.go: a service is built from a configuration, in which every
-- port that is nil and has a default is filled in. The logger is left out.
pub mod Build
pub mod Complete
