-- ===== src/Ttl.antt =====
-- internal/cache/cache.go: the TTL cache and its janitor.
mod Defs
pub mod Reads
pub mod Held
pub mod Eviction
pub mod Janitor
unfoldable pub use Defs.*
