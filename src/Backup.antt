-- ===== src/Backup.antt =====
-- internal/router/processors/backup.go: the restore of wallet backups.
pub mod Defs
pub mod Consistency
pub mod Splits
pub mod Restore
