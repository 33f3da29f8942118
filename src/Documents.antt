-- ===== src/Documents.antt =====
-- backend/app/documents: security levels, the metadata store, the document service, its routes.
pub mod Models
pub mod Security
pub mod Store
pub mod Service
pub mod Router
