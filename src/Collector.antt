-- ===== src/Collector.antt =====
-- internal/collector: the polling of the indexer's database.
pub mod Window
pub mod Damper
pub mod Listener
pub mod Run
