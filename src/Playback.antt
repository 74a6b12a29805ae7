-- ===== src/Playback.antt =====
-- internal/calls: which assistant account plays in a chat, how playback recovers from errors, and
-- how a chat moves on to its next track.
pub mod Errors
pub mod Defs
pub mod Next
pub mod Seek
pub mod Position
pub mod Remaining
pub mod Proposed
pub mod Ends
pub mod Rotation
pub mod Account
pub mod Each
pub mod Outcome
pub mod Clears
