-- ===== src/App.antt =====
-- The application layer, internal/app, and the ports it depends on.
pub mod Ports
pub mod Snapshot
pub mod Monitor
pub mod Networks
pub mod Volumes
