-- ===== src/Tests.antt =====
-- Concrete runs, and each property that has hypotheses at an input that meets them.
mod Memory
mod Ttl
mod Player
mod Admins
mod Backup
mod Db
mod Chats
mod Playlists
mod Playback
mod Next
mod Seek
mod Play
mod Broadcast
mod Cleanup
mod Membership
mod Call
mod Commands
mod Guards
