-- ===== src/Retrieval.antt =====
-- backend/app/retrieval: the filters that a query carries, the store of vectors, the retrievers.
pub mod Filters
pub mod Store
pub mod Upsert
pub mod Retriever
