-- ===== src/Play.antt =====
-- internal/bot/play.go: the commands that put songs into the queue.
pub mod Defs
pub mod Front
pub mod Allocated
pub mod Multiple
pub mod Forced
pub mod Single
