-- ===== src/Documents/Router/Levels.antt =====
-- Every stored level is a supported one, and reindexing keeps a document's own data.
use doc_search_ai.Documents.Router.Uploads.{upload-Accepted}
use doc_search_ai.Documents.Router.Failures.{failed_request-Keeps}
use doc_search_ai.Parsers.{Bytes}
use doc_search_ai.Documents.Service.Failures.{delete-Keeps, reindex-Keeps}
use doc_search_ai.Documents.Router as Router
use doc_search_ai.Documents.Service as Service
use doc_search_ai.Documents.Router.{
  except, except-eq-ok, on_upload_error, on_reindex_error, on_delete_error,
}
use doc_search_ai.Documents.Service.{DocumentService, ServiceState, reindexed, record_of_response}
use doc_search_ai.Documents.Service.Successes.{reindex-Reindexed, delete-Deleted}
use doc_search_ai.Documents.Store.{Records, get_document, record_document, same_document}
use doc_search_ai.Documents.Store as Store
use doc_search_ai.Documents.Store.Lookup.{get-record}
use doc_search_ai.Documents.Models.{DocumentRecord}
use doc_search_ai.Documents.Security.Levels.{IsSupported}
use doc_search_ai.Common.{
  ◌≡◌, ok, some, All, All-append, All-filter, ◌∷◌, Option-cases, if◌then◌else◌, [], ap, inl, ◌∙◌,
  inr, ℕ, Option, run-cases, All-find,
}
use doc_search_ai.Text.{Text}
use doc_search_ai.Auth.Models.{WorkspaceContext}

-- The invariant of the metadata store.
abbrev pub Leveled : Records → Type 0
Leveled = All (λ r. IsSupported r.security_level)

record-Leveled :
    (r : DocumentRecord) (l : Records)
    → IsSupported r.security_level
    → Leveled l
    → Leveled (record_document r l)
unfolding record_document
record-Leveled r l h all = All-append _ _ (r ∷ []) (All-filter _ _ l all) (h, tt)

delete-Leveled :
    (ws id : Text) (l : Records) → Leveled l → Leveled (Store.delete_document ws id l).1
unfolding Store.delete_document
delete-Leveled ws id l all = elim (Option-cases (get_document ws id l)) [
  | inl e ↦ rw (e, Store.delete_document) all
  | inr (r, e) ↦ rw (e, Store.delete_document) (All-filter _ _ l all)
]

module _ {Vector F Db W : Type 0} (service : DocumentService Vector F Db W) where
  -- A reindexing that returns keeps the document's id, workspace, level, uploader, file and time of
  -- upload, and it is the updated record that is found from then on; elsewhere nothing changes.
  pub reindex-found :
      (job_id : Text) (context : WorkspaceContext) (document_id : Text) (s t : ServiceState Db W)
      (updated : DocumentRecord) (ws id : Text)
      → Router.reindex service job_id context document_id s ≡ (ok updated, t)
      → ((old : DocumentRecord) × (get_document context.workspace_id document_id s.records
            ≡ some old)
          × (updated.document_id ≡ old.document_id)
          × (updated.workspace_id ≡ old.workspace_id)
          × (updated.security_level ≡ old.security_level)
          × (updated.uploaded_by_employee_id ≡ old.uploaded_by_employee_id)
          × (updated.storage_key ≡ old.storage_key)
          × (updated.uploaded_at ≡ old.uploaded_at))
        × (get_document ws id t.records
            ≡ (if same_document ws id updated then some updated else get_document ws id s.records))
  unfolding Router.reindex reindexed
  reindex-found job_id context document_id s t updated ws id h =
      let done =
        reindex-Reindexed service job_id context document_id s updated t
          (except-eq-ok on_reindex_error _ h) in
      (
        (
          done.old,
          done.found,
          ap (λ (r : DocumentRecord). r.document_id) done.answered,
          ap (λ (r : DocumentRecord). r.workspace_id) done.answered,
          ap (λ (r : DocumentRecord). r.security_level) done.answered,
          ap (λ (r : DocumentRecord). r.uploaded_by_employee_id) done.answered,
          ap (λ (r : DocumentRecord). r.storage_key) done.answered,
          ap (λ (r : DocumentRecord). r.uploaded_at) done.answered,
        ),
        ap (get_document ws id) done.recorded ∙ get-record ws id updated s.records,
      )

  upload-Leveled :
      (document_id job_id : Text) (now : ℕ) (context : WorkspaceContext)
      (filename content_type : Option Text) (bytes : Bytes) (level : Text) (s : ServiceState Db W)
      → Leveled s.records
      → Leveled
          (Router.upload service document_id job_id now context filename content_type bytes level
            s).1.records
  unfolding record_of_response
  upload-Leveled document_id job_id now context filename content_type bytes level s all =
      let kept =
        (failed_request-Keeps service document_id job_id now context filename content_type bytes
          level s).0 in
      elim (run-cases (
        Router.upload service document_id job_id now context filename content_type bytes level s)) [
          | inl (response, t, e) ↦
              let (accepted, recorded) =
                upload-Accepted service document_id job_id now context filename content_type bytes
                  level s response t e in
              rw (e, recorded)
                (record-Leveled (record_of_response response now) s.records accepted.level_valid
                  all)
          | inr (x, t, e) ↦ let same : t.records ≡ s.records = rw e at kept in rw (e, same) all
        ]

  delete_request-Leveled :
      (context : WorkspaceContext) (document_id : Text) (s : ServiceState Db W)
      → Leveled s.records
      → Leveled (Router.delete service context document_id s).1.records
  unfolding Router.delete
  delete_request-Leveled context document_id s all =
      let kept = delete-Keeps service context document_id s in
      elim (run-cases (Service.delete_document service context document_id s)) [
        | inl (response, t, e) ↦
            let done = delete-Deleted service context document_id s response t e in
            rw (e, done.removed) (delete-Leveled context.workspace_id document_id s.records all)
        | inr (x, t, e) ↦ let same : t.records ≡ s.records = rw e at kept in rw (e, same) all
      ]

  reindex-Leveled :
      (job_id : Text) (context : WorkspaceContext) (document_id : Text) (s : ServiceState Db W)
      → Leveled s.records
      → Leveled (Router.reindex service job_id context document_id s).1.records
  unfolding Router.reindex reindexed get_document
  reindex-Leveled job_id context document_id s all =
      let kept = reindex-Keeps service job_id context document_id s in
      elim (run-cases (Service.reindex_document service job_id context document_id s)) [
        | inl (updated, t, e) ↦
            let done = reindex-Reindexed service job_id context document_id s updated t e in
            let old = All-find (λ r. IsSupported r.security_level) _ s.records all done.found in
            let level = ap (λ (r : DocumentRecord). r.security_level) done.answered in
            rw (e, done.recorded) (record-Leveled updated s.records (rw level old) all)
        | inr (x, t, e) ↦ let same : t.records ≡ s.records = rw e at kept in rw (e, same) all
      ]

  -- If every stored level is supported, it is so after an upload, a deletion and a reindexing,
  -- whatever they answer.
  pub requests-Leveled :
      (document_id job_id : Text) (now : ℕ) (context : WorkspaceContext)
      (filename content_type : Option Text) (bytes : Bytes) (level : Text) (s : ServiceState Db W)
      → Leveled s.records
      → Leveled
          (Router.upload service document_id job_id now context filename content_type bytes level
            s).1.records
        × Leveled (Router.delete service context document_id s).1.records
        × Leveled (Router.reindex service job_id context document_id s).1.records
  requests-Leveled document_id job_id now context filename content_type bytes level s all = (
    upload-Leveled document_id job_id now context filename content_type bytes level s all,
    delete_request-Leveled context document_id s all,
    reindex-Leveled job_id context document_id s all,
  )
