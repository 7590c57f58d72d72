-- ===== src/Web.antt =====
-- The HTTP adapter: internal/adapters/web.
pub mod Actions
pub mod Returning
pub mod Pages
pub mod Services
pub mod Resources
pub mod Front
pub mod Keys
pub mod Sizes
pub mod Row
