-- ===== src/Documents/Router.antt =====
-- backend/app/documents/router.py: the handlers, with the service and its state as above. The
-- workspace context is what `require_workspace_context` returned; an upload's name and type may be
-- missing. The bounds of FastAPI on `limit` are not part of the handler.
pub mod Failures
pub mod Levels
pub mod Uploads
pub mod Access
pub mod Listing
use doc_search_ai.Documents.Models.{
  DocumentRecord, DocumentListResponse, DocumentDeleteResponse, DocumentUploadResponse,
}
use doc_search_ai.Documents.Security.{
  ensure_document_security_level_allowed, validate_document_security_level,
}
use doc_search_ai.Documents.Service as Service
use doc_search_ai.Documents.Service.{DocumentService, ServiceState, default_content_type}
use doc_search_ai.Documents.Store.{Records, list_documents}
use doc_search_ai.Search.Route.{security_forbidden}
use doc_search_ai.Auth.Models.{WorkspaceContext}
use doc_search_ai.Steps.{Steps, lift, ◌>>=◌, ◌>>◌}
use doc_search_ai.Parsers.{Bytes}
use doc_search_ai.Errors.{
  Exception, Raises, http, processing, security_permission, document_not_found, error_code,
}
use doc_search_ai.Text.{Text, text, text_eq}
use doc_search_ai.Common.{
  ℕ, Option, none, some, ◌∷◌, [], Bool, true, false, length, ok, raise, if◌then◌else◌, ◌≡◌,
}

abbrev pub not_found : Exception
not_found = http 404 (text "DOCUMENT_NOT_FOUND")

-- `_document_processing_error`
unfoldable pub document_processing_error : Text → Exception
document_processing_error code =
    http (if text_eq code (text "DOCUMENT_TOO_LARGE") then 413 else 400) code

-- The `except` clauses of the three handlers.
unfoldable pub on_upload_error : Exception → Exception
on_upload_error (processing p message) = document_processing_error (error_code p)
on_upload_error security_permission = security_forbidden
on_upload_error e = e

unfoldable pub on_delete_error : Exception → Exception
on_delete_error (document_not_found message) = not_found
on_delete_error security_permission = security_forbidden
on_delete_error e = e

unfoldable pub on_reindex_error : Exception → Exception
on_reindex_error (document_not_found message) = not_found
on_reindex_error security_permission = security_forbidden
on_reindex_error (processing p message) = document_processing_error (error_code p)
on_reindex_error e = e

-- `try: m except ...: raise ...`
abbrev pub except : {S A : Type 0} → (Exception → Exception) → Raises A × S → Raises A × S
except handler (ok a, s) = (ok a, s)
except handler (raise e, s) = (raise (handler e), s)

unfoldable pub text_or : Option Text → Text → Text
text_or none default = default
text_or (some []) default = default
text_or (some (c ∷ s)) default = c ∷ s

unfoldable pub is_document_visible : WorkspaceContext → DocumentRecord → Raises Bool
is_document_visible context document =
    elim (ensure_document_security_level_allowed context.role document.security_level) [
      | ok _ ↦ ok true
      | raise security_permission ↦ ok false
      | raise e ↦ raise e
    ]

-- The list comprehension.
unfoldable pub keep_visible : WorkspaceContext → Records → Raises Records
keep_visible context [] = ok []
keep_visible context (r ∷ l) = elim (is_document_visible context r) [
  | raise e ↦ raise e
  | ok visible ↦ elim (keep_visible context l) [
    | raise e ↦ raise e
    | ok kept ↦ (if visible then ok (r ∷ kept) else ok kept)
  ]
]

unfoldable pub list_visible : WorkspaceContext → ℕ → Records → Raises DocumentListResponse
list_visible context limit records =
    elim (keep_visible context (list_documents context.workspace_id limit records)) [
      | raise e ↦ raise e
      | ok visible ↦ ok (record { documents = visible; total = length visible })
    ]

module _ {Vector F Db W : Type 0} (service : DocumentService Vector F Db W) where
  unfoldable pub upload :
      Text
      → Text
      → ℕ
      → WorkspaceContext
      → Option Text
      → Option Text
      → Bytes
      → Text
      → Steps (ServiceState Db W) DocumentUploadResponse
  upload document_id job_id now context filename content_type bytes level s =
      except on_upload_error (
        (do
          validated ← lift (validate_document_security_level level)
          lift (ensure_document_security_level_allowed context.role validated)
          Service.upload_document service document_id job_id now context
              (text_or filename (text "document")) (text_or content_type default_content_type) bytes
              validated)
          s)

  unfoldable pub delete : WorkspaceContext → Text → Steps (ServiceState Db W) DocumentDeleteResponse
  delete context document_id s =
      except on_delete_error (Service.delete_document service context document_id s)

  unfoldable pub reindex : Text → WorkspaceContext → Text → Steps (ServiceState Db W) DocumentRecord
  reindex job_id context document_id s =
      except on_reindex_error (Service.reindex_document service job_id context document_id s)

pub except-eq-ok :
    {S A : Type 0} (handler : Exception → Exception) (ran : Raises A × S) {a : A} {t : S}
    → except handler ran ≡ (ok a, t)
    → ran ≡ (ok a, t)
except-eq-ok handler (ok x, s) h = h
except-eq-ok handler (raise e, s) h = absurd cc
