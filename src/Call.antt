-- ===== src/Call.antt =====
-- internal/calls/call.go: the group calls that an assistant takes part in.
pub mod State
pub mod Connect
pub mod Updates
pub mod Settled
pub mod Events
pub mod Signals
pub mod Retries
