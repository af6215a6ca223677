-- ===== src/Audit.antt =====
-- internal/audit: the log of the operations that change something, its store and its middleware.
pub mod Store
pub mod Action
pub mod Middleware
