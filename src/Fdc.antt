-- ===== src/Fdc.antt =====
-- The FDC2 attestation flow of internal/router/processors: the verifier's client, the handler of a
-- queued instruction, and the queues.
pub mod Verifier
pub mod Handler
pub mod Queues
pub mod Names
