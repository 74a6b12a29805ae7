-- ===== src/Admins.antt =====
-- internal/cache/admins.go: the cached administrators of each chat.
mod Defs
pub mod Lookup
pub mod Laws
unfoldable pub use Defs.*
