-- ===== src/Core.antt =====
-- backend/app/core: operation events.
pub mod Events
pub mod Readiness
