-- ===== src/Relay.antt =====
-- The running relay: the goroutines that internal/client starts, the channels between them, and
-- the goroutines that the router (internal/router) and the sender (internal/sender) start in turn.
pub mod Defs
pub mod Delivery
pub mod Progress
pub mod Shutdown
pub mod Signed
pub mod Traced
pub mod Work
pub mod Whole
pub mod System
pub mod Assembly
pub mod Provenance
