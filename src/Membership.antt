-- ===== src/Membership.antt =====
-- internal/calls/membership.go: an assistant joins the chats that it plays in, and leaves the others.
pub mod Defs
pub mod Leave
pub mod Leaving
pub mod Links
pub mod Joining
pub mod Joined
