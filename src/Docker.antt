-- ===== src/Docker.antt =====
-- The container runtime's adapter, internal/adapters/docker.
pub mod Reconnect
pub mod Ports
pub mod Logs
pub mod Redaction
pub mod Routing
pub mod Status
pub mod Types
pub mod Mapping
pub mod Bindings
pub mod Inspect
pub mod Client
pub mod Resources
