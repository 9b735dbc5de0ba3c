-- ===== src/Server.antt =====
-- internal/server around the worker pool, and the request context of internal/phpengine.
pub mod Http
pub mod Detector
pub mod Context
pub mod Router
pub mod Middleware
pub mod Stack
pub mod Delivered
pub mod Site
pub mod Certificate
pub mod Listen
pub mod Advertised
mod Tests
pub mod Standalone
