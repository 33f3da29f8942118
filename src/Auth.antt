-- ===== src/Auth.antt =====
-- backend/app/auth: roles, records and request contexts, tokens and passwords, the service, and the
-- dependencies of the routes.
pub mod Models
pub mod Tokens
pub mod Keys
pub mod Service
pub mod Router
