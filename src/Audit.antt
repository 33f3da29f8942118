-- ===== src/Audit.antt =====
-- backend/app/audit: the log of answers, as it is read and exported.
pub mod Store
pub mod Export
pub mod Router
