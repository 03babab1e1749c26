-- ===== src/Provider.antt =====
-- defaults.go: the built-in provider of the Docker client, an atomic pointer that any number of
-- calls of `DockerClient` and `Close` read and swap at once. One step of a call is one atomic
-- operation or one call of Docker's client package; the answer of that package, an error or none,
-- is the step's input.
pub mod Calls
pub mod Places
pub mod Pings
pub mod Sound
