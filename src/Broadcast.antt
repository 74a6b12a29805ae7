-- ===== src/Broadcast.antt =====
-- internal/db/broadcast.go and internal/bot/broadcast.go: a message to all chats and all users.
pub mod Bulk
pub mod Flagged
pub mod Defs
pub mod Report
pub mod Marks
