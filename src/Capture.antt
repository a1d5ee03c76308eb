-- ===== src/Capture.antt =====
-- internal/capture/capture.go and manager.go: the destinations that a browser capture has observed,
-- and the manager of capture sessions.
pub mod Destinations
pub mod Described
pub mod Refines
pub mod Totals
pub mod Bounds
pub mod Manager
pub mod Places
pub mod Release
mod Tests
