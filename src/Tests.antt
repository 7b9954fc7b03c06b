-- ===== src/Tests.antt =====
-- Sample data, and the theorems at concrete inputs.
pub mod Samples
mod Backup
mod Client
mod Collector
mod Config
mod Fdc
mod Fitting
mod Health
mod Main
mod Named
mod Post
mod Provenance
mod Relay
mod Router
mod Schedule
mod Signing
mod Whole
