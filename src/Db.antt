-- ===== src/Db.antt =====
-- internal/db: the MongoDB collections behind their TTL caches.
pub mod Collection
pub mod Cached
pub mod Assistant
pub mod Lists
pub mod Switches
pub mod Chats
pub mod Users
pub mod Settings
pub mod Getters
pub mod Flags
pub mod Reachability
pub mod Playlists
pub mod Tracks
