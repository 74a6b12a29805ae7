-- ===== src/Commands.antt =====
-- internal/bot: commands that change what a chat plays.
pub mod Numbers
pub mod Guards
pub mod Passing
pub mod Remove
pub mod Selection
pub mod Removal
pub mod Playlists
pub mod Ownership
pub mod ByNumber
pub mod Named
