-- ===== src/Indexing.antt =====
-- backend/app/indexing: the chunker (and, with the store of vectors, the pipeline).
pub mod Chunker
pub mod Embedder
pub mod Pipeline
