-- ===== src/Player.antt =====
-- internal/cache/player_cache.go and internal/utils/models.go: the music queue of each chat.
mod State
mod Updates
mod Getters
pub mod Slices
pub mod Queue
pub mod Calls
pub mod Answers
pub mod History
unfoldable pub use State.*
unfoldable pub use Updates.*
unfoldable pub use Getters.*
