-- ===== src/Backup.antt =====
-- internal/db/backup.go: the database written to a zip, and read back from one.
pub mod Lines
pub mod Save
pub mod Restore
pub mod Scans
pub mod Loops
pub mod Restored
