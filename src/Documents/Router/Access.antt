-- ===== src/Documents/Router/Access.antt =====
-- Who may delete and reindex a document, and what that does.
use doc_search_ai.Documents.Router as Router
use doc_search_ai.Documents.Router.{except-eq-ok, not_found, on_delete_error, on_reindex_error}
use doc_search_ai.Documents.Service as Service
use doc_search_ai.Documents.Service.{DocumentService, ServiceState, find_permitted}
use doc_search_ai.Documents.Service.Successes.{delete-Deleted}
use doc_search_ai.Documents.Store.{Records, get_document}
use doc_search_ai.Documents.Store.Lookup.{get-delete}
use doc_search_ai.Documents.Models.{DocumentRecord, DocumentDeleteResponse}
use doc_search_ai.Documents.Security.{
  ensure_document_security_level_allowed, allowed_document_security_levels,
}
use doc_search_ai.Documents.Security.Levels.{IsSupported, validate_of_IsSupported}
use doc_search_ai.Retrieval.Store.{ClientLaws, delete_document_exact}
use doc_search_ai.Search.Route.{security_forbidden}
use doc_search_ai.Auth.Models.{WorkspaceContext}
use doc_search_ai.Errors.{Exception, security_permission, document_not_found}
use doc_search_ai.Text.{Text, text_eq, contains, text}
use doc_search_ai.Common.{
  ◌≡◌, refl, ok, raise, some, none, filter, not, ◌&&◌, false, if◌then◌else◌, ap, ◌∙◌, ◌++◌,
}

-- Why a document may not be touched by a caller: there is none of that id in the workspace, or its
-- level is not open to the role.
pub data Untouchable (context : WorkspaceContext) (document_id : Text) (records : Records)
    : Exception → Type 0 where
  missing :
      get_document context.workspace_id document_id records ≡ none
      → Untouchable context document_id records not_found
  closed :
      (r : DocumentRecord)
      → get_document context.workspace_id document_id records ≡ some r
      → IsSupported r.security_level
      → contains (allowed_document_security_levels context.role) r.security_level ≡ false
      → Untouchable context document_id records security_forbidden

module _ {Vector F Db W : Type 0} (service : DocumentService Vector F Db W) where
  find_permitted-raise :
      (context : WorkspaceContext) (document_id : Text) (records : Records) (e : Exception)
      → Untouchable context document_id records e
      → (x : Exception) × (find_permitted service context document_id records ≡ raise x)
        × (on_delete_error x ≡ e)
        × (on_reindex_error x ≡ e)
  unfolding find_permitted on_delete_error on_reindex_error ensure_document_security_level_allowed
  find_permitted-raise context document_id records _ (missing none_there) = (
    document_not_found (text "Document not found: " ++ document_id),
    rw (none_there, find_permitted) refl,
    refl,
    refl,
  )
  find_permitted-raise context document_id records _ (closed r there supported refused) = (
    security_permission,
    rw (there, find_permitted, validate_of_IsSupported r.security_level supported, refused) refl,
    refl,
    refl,
  )

  -- A document that is missing, also because it is of another workspace, or whose level is closed
  -- to the role, is neither deleted nor reindexed: the answer is 404 or 403 and nothing changes.
  pub Untouchable-kept :
      (job_id : Text) (context : WorkspaceContext) (document_id : Text) (s : ServiceState Db W)
      (e : Exception)
      → Untouchable context document_id s.records e
      → (Router.delete service context document_id s ≡ (raise e, s))
        × (Router.reindex service job_id context document_id s ≡ (raise e, s))
  unfolding Router.delete Router.reindex Service.delete_document Service.reindex_document
  Untouchable-kept job_id context document_id s e h =
      let (x, refused, deleting, reindexing) =
        find_permitted-raise context document_id s.records e h in
      (rw (refused, deleting) refl, rw (refused, reindexing) refl)

  -- After a deletion that returns, the document is found no more, every other document is found as
  -- before, and the vectors that are left are exactly those of other documents.
  pub delete-exact :
      (laws : ClientLaws service.vector_client) (context : WorkspaceContext) (document_id : Text)
      (s t : ServiceState Db W) (response : DocumentDeleteResponse) (ws id : Text)
      → Router.delete service context document_id s ≡ (ok response, t)
      → (get_document ws id t.records ≡ (
          if text_eq context.workspace_id ws && text_eq document_id id
          then none
          else get_document ws id s.records))
        × (service.vector_client.payloads t.vectors
            ≡ filter
                (λ p. not (
                  text_eq p.workspace_id context.workspace_id && text_eq p.document_id document_id))
                (service.vector_client.payloads s.vectors))
  unfolding Router.delete
  delete-exact laws context document_id s t response ws id h =
      let done =
        delete-Deleted service context document_id s response t
          (except-eq-ok on_delete_error _ h) in
      (
        ap (get_document ws id) done.removed
            ∙ get-delete context.workspace_id document_id ws id s.records,
        delete_document_exact service.vector_client laws s.vectors context.workspace_id document_id
            t.vectors done.cleaned,
      )
