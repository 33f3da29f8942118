-- ===== src/Documents/Router/Uploads.antt =====
-- Which uploads are accepted, what they record, and how the others are refused.
use doc_search_ai.Steps.{continue-eq-ok, lift, Returns}
use doc_search_ai.Documents.Router as Router
use doc_search_ai.Documents.Router.{
  except-eq-ok, text_or, document_processing_error, on_upload_error,
}
use doc_search_ai.Documents.Service as Service
use doc_search_ai.Documents.Service.{
  DocumentService, ServiceState, normalize_filename, record_of_response, default_content_type,
  upload_response, validate_document_size, enqueue_job, normalize_content_type,
}
use doc_search_ai.Documents.Service.Successes.{upload-Uploaded}
use doc_search_ai.Documents.Store.{get_document, record_document}
use doc_search_ai.Documents.Store.Lookup.{get-record}
use doc_search_ai.Documents.Models.{
  DocumentRecord, DocumentUploadResponse, supported_document_security_levels,
}
use doc_search_ai.Documents.Security.{
  validate_document_security_level, ensure_document_security_level_allowed,
  allowed_document_security_levels, normalize_level, invalid_security_level,
}
use doc_search_ai.Documents.Security.Levels.{
  IsSupported, validate-IsSupported, normalize_of_IsSupported,
}
use doc_search_ai.Search.Route.{security_forbidden}
use doc_search_ai.Auth.Models.{WorkspaceContext}
use doc_search_ai.Parsers.{Bytes, ParsedDocument}
use doc_search_ai.Errors.{
  Exception, ProcessingError, processing, error_code, http, document_too_large, processing_failed,
  unsupported_document_type, empty_document, corrupt_document,
}
use doc_search_ai.Text.{Text, text, contains, text_eq}
use doc_search_ai.Common.{
  ◌≡◌, refl, ok, raise, ℕ, ◌≤◌, Option, some, true, if◌then◌else◌, length, arith, false, ap, ◌<◌,
  sym, ◌∙◌, ◌≢◌, ◌&&◌, lt→ltb, le→ltb,
}

-- The level is in normal form, valid and open to the role; the document belongs to the caller, is
-- not too large and can be read.
pub record Accepted {Vector F Db W : Type 0} (service : DocumentService Vector F Db W)
    (document_id : Text) (context : WorkspaceContext) (filename : Option Text) (bytes : Bytes)
    (level : Text) (response : DocumentUploadResponse) : Type 0 where
  pub level_normal : response.security_level ≡ normalize_level level
  pub level_valid : contains supported_document_security_levels response.security_level ≡ true
  pub level_open :
      contains (allowed_document_security_levels context.role) response.security_level ≡ true
  pub own_workspace : response.workspace_id ≡ context.workspace_id
  pub own_id : response.document_id ≡ document_id
  pub own_workspace_name : response.workspace_name ≡ context.workspace_name
  pub own_upload : response.uploaded_by_employee_id ≡ context.employee_id
  pub named : response.filename ≡ normalize_filename (text_or filename (text "document"))
  pub small : length bytes ≤ service.max_document_bytes
  pub parsed : ParsedDocument
  pub readable :
      service.parse (normalize_filename (text_or filename (text "document"))) bytes ≡ ok parsed
  pub counted : response.character_count ≡ parsed.character_count
  pub previewed : response.text_preview ≡ parsed.preview
  pub parsed_by : response.parser ≡ parsed.parser_name

-- The record that an upload is found as: the response, field by field, and the time.
abbrev pub found_as : DocumentUploadResponse → ℕ → DocumentRecord
found_as response uploaded_at = record {
  document_id = response.document_id;
  workspace_id = response.workspace_id;
  workspace_name = response.workspace_name;
  uploaded_by_employee_id = response.uploaded_by_employee_id;
  security_level = response.security_level;
  filename = response.filename;
  parser = response.parser;
  character_count = response.character_count;
  text_preview = response.text_preview;
  storage_key = response.storage_key;
  indexing_job_id = response.indexing_job_id;
  indexing_status = response.indexing_status;
  indexing_error = response.indexing_error;
  chunk_count = response.chunk_count;
  uploaded_at = uploaded_at;
}

ensure-open :
    (role level : Text)
    → IsSupported level
    → ensure_document_security_level_allowed role level ≡ ok tt
    → contains (allowed_document_security_levels role) level ≡ true
unfolding ensure_document_security_level_allowed validate_document_security_level
ensure-open role level supported e = ground (arith, normalize_of_IsSupported level)

bad_request :
    (p : ProcessingError)
    → p ≢ document_too_large
    → document_processing_error (error_code p) ≡ http 400 (error_code p)
unfolding document_processing_error error_code text_eq
bad_request processing_failed h = refl
bad_request unsupported_document_type h = refl
bad_request empty_document h = refl
bad_request corrupt_document h = refl
bad_request document_too_large h = absurd (h refl)

module _ {Vector F Db W : Type 0} (service : DocumentService Vector F Db W) where
  pub upload-Accepted :
      (document_id job_id : Text) (now : ℕ) (context : WorkspaceContext)
      (filename content_type : Option Text) (bytes : Bytes) (level : Text) (s : ServiceState Db W)
      (response : DocumentUploadResponse) (t : ServiceState Db W)
      → Router.upload service document_id job_id now context filename content_type bytes level s
        ≡ (ok response, t)
      → Accepted service document_id context filename bytes level response
        × (t.records ≡ record_document (record_of_response response now) s.records)
  unfolding Router.upload upload_response
  upload-Accepted document_id job_id now context filename content_type bytes level s response t h =
      let run = except-eq-ok on_upload_error _ h in
      let (validated, s1, e1, h1) =
        continue-eq-ok _ (lift (validate_document_security_level level) s) run in
      let (_, s2, e2, h2) =
        continue-eq-ok _ (lift (ensure_document_security_level_allowed context.role validated) s1)
          h1 in
      let done = upload-Uploaded service _ _ now context _ _ bytes validated s2 response t h2 in
      let (supported, normal) = validate-IsSupported level (ap (λ p. p.0) e1) in
      let level_is : response.security_level ≡ validated =
        ap (λ (r : DocumentUploadResponse). r.security_level) done.answered in
      let records : s2.records ≡ s.records =
        sym (ap (λ p. p.1.records) e2) ∙ sym (ap (λ p. p.1.records) e1) in
      (
        record {
          level_normal = level_is ∙ normal;
          level_valid = rw level_is supported;
          level_open =
              rw level_is (ensure-open context.role validated supported (ap (λ p. p.0) e2));
          own_workspace = ap (λ (r : DocumentUploadResponse). r.workspace_id) done.answered;
          own_id = ap (λ (r : DocumentUploadResponse). r.document_id) done.answered;
          small = done.small;
          parsed = done.parsed;
          readable = done.readable;
          own_workspace_name = ap (λ (r : DocumentUploadResponse). r.workspace_name) done.answered;
          own_upload = ap (λ (r : DocumentUploadResponse). r.uploaded_by_employee_id) done.answered;
          named = ap (λ (r : DocumentUploadResponse). r.filename) done.answered;
          counted = ap (λ (r : DocumentUploadResponse). r.character_count) done.answered;
          previewed = ap (λ (r : DocumentUploadResponse). r.text_preview) done.answered;
          parsed_by = ap (λ (r : DocumentUploadResponse). r.parser) done.answered;
        },
        done.recorded ∙ ap (record_document (record_of_response response now)) records,
      )

  -- An upload that returns is accepted: its response is of the caller's workspace, level and file.
  -- From then on it is found in the metadata under that workspace and the new id, with every field
  -- of the response and the time of the upload; what is found elsewhere is unchanged.
  pub upload-found :
      (document_id job_id : Text) (now : ℕ) (context : WorkspaceContext)
      (filename content_type : Option Text) (bytes : Bytes) (level : Text) (s : ServiceState Db W)
      (response : DocumentUploadResponse) (t : ServiceState Db W) (ws id : Text)
      → Router.upload service document_id job_id now context filename content_type bytes level s
        ≡ (ok response, t)
      → Accepted service document_id context filename bytes level response
        × (get_document ws id t.records ≡ (
            if text_eq context.workspace_id ws && text_eq document_id id
            then some (found_as response now)
            else get_document ws id s.records))
  unfolding record_of_response
  upload-found document_id job_id now context filename content_type bytes level s response t ws id
        h =
      let (accepted, recorded) =
        upload-Accepted document_id job_id now context filename content_type bytes level s response
          t h in
      (
        accepted,
        rw (← accepted.own_workspace, ← accepted.own_id)
            (ap (get_document ws id) recorded
              ∙ get-record ws id (record_of_response response now) s.records),
      )

  -- Why an upload is refused before anything is stored.
  pub data Refusal (context : WorkspaceContext) (filename : Option Text) (bytes : Bytes)
      (level : Text) : Exception → Type 0 where
    unknown_level :
        contains supported_document_security_levels (normalize_level level) ≡ false
        → Refusal context filename bytes level invalid_security_level
    closed_level :
        contains supported_document_security_levels (normalize_level level) ≡ true
        → contains (allowed_document_security_levels context.role) (normalize_level level) ≡ false
        → Refusal context filename bytes level security_forbidden
    too_large :
        contains supported_document_security_levels (normalize_level level) ≡ true
        → contains (allowed_document_security_levels context.role) (normalize_level level) ≡ true
        → service.max_document_bytes < length bytes
        → Refusal context filename bytes level (http 413 (text "DOCUMENT_TOO_LARGE"))
    unreadable :
        (p : ProcessingError) (message : Text)
        → contains supported_document_security_levels (normalize_level level) ≡ true
        → contains (allowed_document_security_levels context.role) (normalize_level level) ≡ true
        → length bytes ≤ service.max_document_bytes
        → p ≢ document_too_large
        → service.parse (normalize_filename (text_or filename (text "document"))) bytes
          ≡ raise (processing p message)
        → Refusal context filename bytes level (http 400 (error_code p))

  -- A refused upload answers with the status of its reason and changes nothing.
  pub upload-refused :
      (document_id job_id : Text) (now : ℕ) (context : WorkspaceContext)
      (filename content_type : Option Text) (bytes : Bytes) (level : Text) (s : ServiceState Db W)
      (e : Exception)
      → Refusal context filename bytes level e
      → Router.upload service document_id job_id now context filename content_type bytes level s
        ≡ (raise e, s)
  unfolding Router.upload Service.upload_document validate_document_security_level
      ensure_document_security_level_allowed validate_document_size on_upload_error
      document_processing_error text_eq error_code
  upload-refused document_id job_id now context filename content_type bytes level s _
        (unknown_level bad) =
      rw bad refl
  upload-refused document_id job_id now context filename content_type bytes level s _
        (closed_level valid closed) =
      rw (valid, normalize_of_IsSupported (normalize_level level) valid, valid, closed) refl
  upload-refused document_id job_id now context filename content_type bytes level s _
        (too_large valid opened large) =
      rw
        (
          valid,
          normalize_of_IsSupported (normalize_level level) valid,
          valid,
          opened,
          lt→ltb _ _ large,
        )
        refl
  upload-refused document_id job_id now context filename content_type bytes level s _
        (unreadable p message valid opened small other broken) =
      rw
        (
          valid,
          normalize_of_IsSupported (normalize_level level) valid,
          valid,
          opened,
          le→ltb _ _ small,
          broken,
        )
        (ap (λ x. (raise x, s)) (bad_request p other))

  -- An upload with a valid level that is open to the role, of a file that is not too large, can be
  -- read and is stored, succeeds.
  pub upload-succeeds :
      (document_id job_id : Text) (now : ℕ) (context : WorkspaceContext)
      (filename content_type : Option Text) (bytes : Bytes) (level : Text) (s : ServiceState Db W)
      (parsed : ParsedDocument) (key : Text) (world : W)
      → contains supported_document_security_levels (normalize_level level) ≡ true
      → contains (allowed_document_security_levels context.role) (normalize_level level) ≡ true
      → length bytes ≤ service.max_document_bytes
      → service.parse (normalize_filename (text_or filename (text "document"))) bytes ≡ ok parsed
      → service.storage_service.upload_document context.workspace_id document_id
          (normalize_filename (text_or filename (text "document")))
          (normalize_content_type service.lower service.guess_type
            (text_or content_type default_content_type)
            (normalize_filename (text_or filename (text "document"))))
          bytes
          s.world
        ≡ (ok key, world)
      → Returns
          (Router.upload service document_id job_id now context filename content_type bytes level s)
  unfolding Router.upload Service.upload_document validate_document_security_level
      ensure_document_security_level_allowed validate_document_size enqueue_job
  upload-succeeds document_id job_id now context filename content_type bytes level s parsed key
        world valid opened small readable stored =
      rw
        (
          valid,
          normalize_of_IsSupported (normalize_level level) valid,
          valid,
          opened,
          le→ltb _ _ small,
          readable,
          stored,
          Returns,
        )
        tt
