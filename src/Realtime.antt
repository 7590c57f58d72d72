-- ===== src/Realtime.antt =====
-- The event stream, internal/adapters/realtime.
pub mod Hub
pub mod Stream
