-- ===== src/Indexing/Pipeline.antt =====
-- backend/app/indexing/pipeline.py: `IndexingPipeline`. The state is the vector database and the
-- outside world of the object storage; the chunker's fuel is always enough (`Chunker`), so that
-- `all_chunks` raises for no chunker that was made.
pub mod Runs
use doc_search_ai.Storage.Minio.{StorageService}
use doc_search_ai.Steps.{Steps, pure, lift, ◌>>=◌, ◌>>◌}
use doc_search_ai.Parsers.{ParsedDocument, Bytes}
use doc_search_ai.Indexing.Chunker.{CharacterChunker, chunk}
use doc_search_ai.Retrieval.Retriever.{Embedder}
use doc_search_ai.Retrieval.Store.{QdrantClient}
use doc_search_ai.Retrieval.Upsert.{upsert_chunks}
use doc_search_ai.Jobs.Base.{IndexDocumentJob}
use doc_search_ai.Jobs.InProcess.{Processor}
use doc_search_ai.Errors.{Exception, Raises, other}
use doc_search_ai.Text.{Text, text}
use doc_search_ai.Common.{ℕ, List, [], ◌∷◌, none, some, length, ok, raise, Result}

pub record IndexingPipeline (F Db W : Type 0) : Type 0 where
  pub storage_service : StorageService W
  pub parse : Text → Bytes → Raises ParsedDocument
  pub chunker : CharacterChunker
  pub embedder : Embedder (List F)
  pub vector_client : QdrantClient (List F) F Db
  pub uuid5 : Text → Text
  pub decimal : ℕ → Text

pub record IndexingResult (F : Type 0) : Type 0 where
  pub job_id : Text
  pub document_id : Text
  pub parser : Text
  pub chunk_count : ℕ
  pub chunks : List Text
  pub embeddings : List (List F)
  pub embedding_count : ℕ
  pub embedding_dimensions : ℕ

unfoldable pub all_chunks : CharacterChunker → Text → Raises (List Text)
all_chunks c t = elim (chunk c t) [ none ↦ raise (other (text "out of fuel")) | some l ↦ ok l ]

-- `len(embeddings[0]) if embeddings else 0`
unfoldable pub first_dimensions : {F : Type 0} → List (List F) → ℕ
first_dimensions [] = 0
first_dimensions (e ∷ embeddings) = length e

module _ {Db W : Type 0} where
  abbrev pub on_storage : {A : Type 0} → Steps W A → Steps (Db × W) A
  on_storage m (db, w) = let (r, w') = m w in (r, (db, w'))

  -- A write to the database happens only if it succeeds.
  abbrev pub write_vectors : Raises Db → Steps (Db × W) (Unit {0})
  write_vectors (ok db') (db, w) = (ok tt, (db', w))
  write_vectors (raise e) (db, w) = (raise e, (db, w))

  abbrev pub on_vectors : (Db → Raises Db) → Steps (Db × W) (Unit {0})
  on_vectors f s = write_vectors (f s.0) s

module _ {F Db W : Type 0} (pipeline : IndexingPipeline F Db W) where
  unfoldable pub run : IndexDocumentJob → Steps (Db × W) (IndexingResult F)
  run job = do
    bytes ← on_storage (pipeline.storage_service.download_document job.storage_key)
    parsed ← lift (pipeline.parse job.filename bytes)
    chunks ← lift (all_chunks pipeline.chunker parsed.text)
    embeddings ← lift (pipeline.embedder.embed_texts chunks)
    on_vectors (
        upsert_chunks pipeline.uuid5 pipeline.decimal pipeline.vector_client job parsed.parser_name
          chunks embeddings)
    pure (record {
      job_id = job.job_id;
      document_id = job.document_id;
      parser = parsed.parser_name;
      chunk_count = length chunks;
      chunks = chunks;
      embeddings = embeddings;
      embedding_count = length embeddings;
      embedding_dimensions = first_dimensions embeddings;
    })

  -- The pipeline as the processor of a queue; `message_of` is `str` of an exception.
  abbrev pub processor : (Exception → Text) → Processor (Db × W)
  processor message_of job s =
      let (result, s') = run job s in
      (elim result [ ok r ↦ ok r.chunk_count | raise e ↦ raise (message_of e) ], s')
