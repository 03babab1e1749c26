-- ===== src/Ports.antt =====
-- ports.go and config.go: what the program calls outside itself. A run is a sequence of requests,
-- and every answer is an arbitrary function of the requests made before, so that Docker, the host
-- application and whatever else changes their state may do as they like. Deadlines and cancelled
-- contexts show in the answers.
mod Effects
mod Requests
mod Turns
unfoldable pub use Effects.*
pub use Requests.*
pub use Turns.*
