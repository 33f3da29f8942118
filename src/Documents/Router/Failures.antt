-- ===== src/Documents/Router/Failures.antt =====
-- What a request that fails leaves in the metadata store.
use doc_search_ai.Documents.Router as Router
use doc_search_ai.Documents.Router.{except, text_or}
use doc_search_ai.Documents.Service.{DocumentService, ServiceState, default_content_type}
use doc_search_ai.Documents.Service.Failures.{
  Keeps, then-Keeps, upload-Keeps, delete-Keeps, reindex-Keeps,
}
use doc_search_ai.Documents.Security.{
  validate_document_security_level, ensure_document_security_level_allowed,
}
use doc_search_ai.Documents.Store.{Records}
use doc_search_ai.Steps.{lift}
use doc_search_ai.Common.{refl, ok, raise, ℕ, Option}
use doc_search_ai.Text.{Text, text}
use doc_search_ai.Errors.{Exception, Raises}
use doc_search_ai.Parsers.{Bytes}
use doc_search_ai.Auth.Models.{WorkspaceContext}

pub except-Keeps :
    {Db W A : Type 0} (l : Records) (handler : Exception → Exception)
    (ran : Raises A × ServiceState Db W)
    → Keeps l ran
    → Keeps l (except handler ran)
except-Keeps l handler (ok a, s) h = h
except-Keeps l handler (raise e, s) h = h

module _ {Vector F Db W : Type 0} (service : DocumentService Vector F Db W) where
  upload_request-Keeps :
      (document_id job_id : Text) (now : ℕ) (context : WorkspaceContext)
      (filename content_type : Option Text) (bytes : Bytes) (level : Text) (s : ServiceState Db W)
      → Keeps s.records
          (Router.upload service document_id job_id now context filename content_type bytes level s)
  unfolding Router.upload
  upload_request-Keeps document_id job_id now context filename content_type bytes level s =
      except-Keeps s.records _ _ (
        then-Keeps s.records _ (lift (validate_document_security_level level) s) refl
          λ validated s1 h1.
            then-Keeps s.records _
              (lift (ensure_document_security_level_allowed context.role validated) s1) h1
              λ _ s2 h2. rw (← h2) (
                upload-Keeps service document_id job_id now context
                  (text_or filename (text "document")) (text_or content_type default_content_type)
                  bytes validated s2))

  -- An upload, a deletion or a reindexing that raises, wherever it does, leaves the metadata store
  -- as it was.
  pub failed_request-Keeps :
      (document_id job_id : Text) (now : ℕ) (context : WorkspaceContext)
      (filename content_type : Option Text) (bytes : Bytes) (level : Text) (s : ServiceState Db W)
      → Keeps s.records
          (Router.upload service document_id job_id now context filename content_type bytes level s)
        × Keeps s.records (Router.delete service context document_id s)
        × Keeps s.records (Router.reindex service job_id context document_id s)
  unfolding Router.delete Router.reindex
  failed_request-Keeps document_id job_id now context filename content_type bytes level s = (
    upload_request-Keeps document_id job_id now context filename content_type bytes level s,
    except-Keeps s.records _ _ (delete-Keeps service context document_id s),
    except-Keeps s.records _ _ (reindex-Keeps service job_id context document_id s),
  )
