-- ===== src/Session.antt =====
-- internal/session/session.go: the ephemeral lifecycle of diagnostic runs.
pub mod Channel
pub mod Defs
pub mod Execute
pub mod Delivery
pub mod Subscribers
pub mod Log
pub mod Streams
pub mod Invariant
pub mod Steps
pub mod Run
pub mod Finish
pub mod Ending
pub mod Life
pub mod Manager
mod Tests
