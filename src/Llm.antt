-- ===== src/Llm.antt =====
-- backend/app/llm: the client of the language model.
pub mod Client
