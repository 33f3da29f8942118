-- ===== src/Documents/Service.antt =====
-- backend/app/documents/service.py: `DocumentService`. The state is the vector database, the outside
-- world (the object storage and what the queue reaches) and the metadata store. Parameters: the new
-- ids and the time of a call; `guess_type filename` is `mimetypes.guess_type(filename)[0]`, `lower`
-- is `str.lower`, and the storage service, the queue and the parser registry are what the service
-- is given.
pub mod Successes
pub mod Failures
use doc_search_ai.Auth.Models.{WorkspaceContext}
use doc_search_ai.Storage.Minio.{StorageService}
use doc_search_ai.Steps.{Steps, pure, lift, ◌>>=◌, ◌>>◌}
use doc_search_ai.Documents.Models.{DocumentRecord, DocumentDeleteResponse, DocumentUploadResponse}
use doc_search_ai.Documents.Security.{ensure_document_security_level_allowed}
use doc_search_ai.Retrieval.Store as Vectors
use doc_search_ai.Retrieval.Store.{QdrantClient}
use doc_search_ai.Documents.Store as Metadata
use doc_search_ai.Documents.Store.{Records}
use doc_search_ai.Jobs.Base.{IndexDocumentJob, JobDispatchResult}
use doc_search_ai.Parsers.{ParsedDocument, Bytes}
use doc_search_ai.Errors.{Raises, processing, document_too_large, document_not_found}
use doc_search_ai.Text.{Text, text, strip, split_on}
use doc_search_ai.Common.{
  ℕ, Option, none, some, List, map, ◌==◌, ◌++◌, ltb, length, null, if◌then◌else◌, raise_if, ok,
  raise, true, [], ◌∷◌,
}

abbrev pub default_content_type : Text
default_content_type = text "application/octet-stream"

-- `guessed or "application/octet-stream"`
unfoldable pub guess_content_type : (Text → Option Text) → Text → Text
guess_content_type guess_type filename = elim (guess_type filename) [
  | none ↦ default_content_type
  | some guessed ↦ (if null guessed then default_content_type else guessed)
]

-- `l[-1]`, where the list is never empty.
abbrev pub last_part : List Text → Text
last_part [] = []
last_part (s ∷ []) = s
last_part (s ∷ t ∷ l) = last_part (t ∷ l)

unfoldable pub normalize_filename : Text → Text
normalize_filename filename =
    let slashes = map (λ c. if c == 92 then 47 else c) filename in
    let normalized = strip (last_part (split_on 47 slashes)) in
    if null normalized then text "document" else normalized

unfoldable pub normalize_content_type : (Text → Text) → (Text → Option Text) → Text → Text → Text
normalize_content_type lower guess_type content_type filename =
    let normalized = lower (strip content_type) in
    if null normalized then guess_content_type guess_type filename else normalized

pub record ServiceState (Db W : Type 0) : Type 0 where
  pub vectors : Db
  pub world : W
  pub records : Records

pub record DocumentService (Vector F Db W : Type 0) : Type 0 where
  pub parse : Text → Bytes → Raises ParsedDocument
  pub storage_service : StorageService W
  pub enqueue : IndexDocumentJob → Db × W → JobDispatchResult × (Db × W)
  pub vector_client : QdrantClient Vector F Db
  pub max_document_bytes : ℕ
  pub guess_type : Text → Option Text
  pub lower : Text → Text

module _ {Db W : Type 0} where
  abbrev pub on_world : {A : Type 0} → Steps W A → Steps (ServiceState Db W) A
  on_world m s = let (r, world') = m s.world in (r, record s { world = world' })

  -- An operation on the database that writes only when it succeeds.
  abbrev pub written_vectors : Raises Db → Steps (ServiceState Db W) (Unit {0})
  written_vectors (ok db) s = (ok tt, record s { vectors = db })
  written_vectors (raise e) s = (raise e, s)

  abbrev pub on_records : (Records → Records) → Steps (ServiceState Db W) (Unit {0})
  on_records f s = (ok tt, record s { records = f s.records })

abbrev pub first_job :
    Text → WorkspaceContext → Text → Text → Text → Text → Option Text → Text → IndexDocumentJob
first_job job_id context document_id filename content_type storage_key employee_id level = record {
  job_id = job_id;
  workspace_id = context.workspace_id;
  workspace_name = context.workspace_name;
  document_id = document_id;
  filename = filename;
  content_type = content_type;
  storage_key = storage_key;
  uploaded_by_employee_id = employee_id;
  security_level = level;
  attempt = 1;
  max_attempts = 3;
}

unfoldable pub upload_response :
    WorkspaceContext
    → Text
    → Text
    → Text
    → ParsedDocument
    → Text
    → JobDispatchResult
    → DocumentUploadResponse
upload_response context document_id level filename parsed storage_key dispatch = record {
  document_id = document_id;
  workspace_id = context.workspace_id;
  workspace_name = context.workspace_name;
  uploaded_by_employee_id = context.employee_id;
  security_level = level;
  filename = filename;
  parser = parsed.parser_name;
  character_count = parsed.character_count;
  text_preview = parsed.preview;
  storage_key = storage_key;
  indexing_job_id = dispatch.job_id;
  indexing_status = dispatch.status;
  indexing_error = dispatch.failure_reason;
  chunk_count = dispatch.chunk_count;
}

-- `DocumentRecord(**response.model_dump(), uploaded_at=now)`
unfoldable pub record_of_response : DocumentUploadResponse → ℕ → DocumentRecord
record_of_response r now = record {
  document_id = r.document_id;
  workspace_id = r.workspace_id;
  workspace_name = r.workspace_name;
  uploaded_by_employee_id = r.uploaded_by_employee_id;
  security_level = r.security_level;
  filename = r.filename;
  parser = r.parser;
  character_count = r.character_count;
  text_preview = r.text_preview;
  storage_key = r.storage_key;
  indexing_job_id = r.indexing_job_id;
  indexing_status = r.indexing_status;
  indexing_error = r.indexing_error;
  chunk_count = r.chunk_count;
  uploaded_at = now;
}

-- What `reindex_document` changes in a record.
unfoldable pub reindexed :
    WorkspaceContext → ParsedDocument → JobDispatchResult → DocumentRecord → DocumentRecord
reindexed context parsed dispatch r = record r {
  workspace_name = context.workspace_name;
  parser = parsed.parser_name;
  character_count = parsed.character_count;
  text_preview = parsed.preview;
  indexing_job_id = dispatch.job_id;
  indexing_status = dispatch.status;
  indexing_error = dispatch.failure_reason;
  chunk_count = dispatch.chunk_count;
}

module _ {Vector F Db W : Type 0} (service : DocumentService Vector F Db W) where
  -- The number in the message is left out.
  unfoldable pub validate_document_size : Bytes → Raises (Unit {0})
  validate_document_size bytes =
      raise_if (ltb service.max_document_bytes (length bytes))
        (processing document_too_large (text "Document exceeds maximum size."))

  unfoldable pub enqueue_job : IndexDocumentJob → Steps (ServiceState Db W) JobDispatchResult
  enqueue_job job s =
      let (dispatch, (db', world')) = service.enqueue job (s.vectors, s.world) in
      (ok dispatch, record s { vectors = db'; world = world' })

  unfoldable pub delete_vectors : Text → Text → Steps (ServiceState Db W) (Unit {0})
  delete_vectors workspace_id document_id s =
      written_vectors
        (Vectors.delete_document service.vector_client s.vectors workspace_id document_id) s

  -- The record that a call is about, if the role may touch it.
  unfoldable pub find_permitted : WorkspaceContext → Text → Records → Raises DocumentRecord
  find_permitted context document_id records =
      elim (Metadata.get_document context.workspace_id document_id records) [
        | none ↦ raise (document_not_found (text "Document not found: " ++ document_id))
        | some r ↦ elim (ensure_document_security_level_allowed context.role r.security_level) [
          | raise e ↦ raise e
          | ok _ ↦ ok r
        ]
      ]

  unfoldable pub upload_document :
      Text
      → Text
      → ℕ
      → WorkspaceContext
      → Text
      → Text
      → Bytes
      → Text
      → Steps (ServiceState Db W) DocumentUploadResponse
  upload_document document_id job_id now context raw_name raw_type bytes level =
      let filename = normalize_filename raw_name in
      let content_type =
        normalize_content_type service.lower service.guess_type raw_type filename in
      do
        lift (validate_document_size bytes)
        parsed ← lift (service.parse filename bytes)
        storage_key ← on_world (
            service.storage_service.upload_document context.workspace_id document_id filename
              content_type bytes)
        dispatch ← enqueue_job (
            first_job job_id context document_id filename content_type storage_key
              context.employee_id level)
        on_records (
            Metadata.record_document (
              record_of_response
                (upload_response context document_id level filename parsed storage_key dispatch)
                now))
        pure (upload_response context document_id level filename parsed storage_key dispatch)

  unfoldable pub delete_document :
      WorkspaceContext → Text → Steps (ServiceState Db W) DocumentDeleteResponse
  delete_document context document_id s =
      (do
        r ← lift (find_permitted context document_id s.records)
        delete_vectors context.workspace_id document_id
        on_world (service.storage_service.delete_document r.storage_key)
        on_records
            (λ records. (Metadata.delete_document context.workspace_id document_id records).1)
        pure (record {
          document_id = document_id;
          workspace_id = context.workspace_id;
          deleted = true;
        }))
        s

  unfoldable pub reindex_document :
      Text → WorkspaceContext → Text → Steps (ServiceState Db W) DocumentRecord
  reindex_document job_id context document_id s =
      (do
        r ← lift (find_permitted context document_id s.records)
        bytes ← on_world (service.storage_service.download_document r.storage_key)
        lift (validate_document_size bytes)
        parsed ← lift (service.parse r.filename bytes)
        delete_vectors context.workspace_id document_id
        dispatch ← enqueue_job (
            first_job job_id context document_id r.filename
              (guess_content_type service.guess_type r.filename) r.storage_key
              r.uploaded_by_employee_id r.security_level)
        on_records (Metadata.record_document (reindexed context parsed dispatch r))
        pure (reindexed context parsed dispatch r))
        s
