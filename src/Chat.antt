-- ===== src/Chat.antt =====
-- backend/app/chat, backend/app/reranking and backend/app/audit as far as an answer uses them.
pub mod Rerank
pub mod Citations
pub mod Service
pub mod Answering
pub mod Route
