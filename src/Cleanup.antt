-- ===== src/Cleanup.antt =====
-- internal/downloader/cleanup.go: the files that are no longer needed are removed.
pub mod Paths
pub mod Defs
pub mod Removed
pub mod Kept
pub mod Complete
