-- ===== src/Documents/Service/Failures.antt =====
-- What an operation leaves behind when it raises: other stores may have changed, the metadata not.
use doc_search_ai.Steps.{Steps, OnRaise, continue-keeps, lift, continue}
use doc_search_ai.Documents.Service as Service
use doc_search_ai.Documents.Service.{
  DocumentService, ServiceState, on_world, written_vectors, enqueue_job, delete_vectors,
  find_permitted,
}
use doc_search_ai.Documents.Store.{Records}
use doc_search_ai.Common.{◌≡◌, refl, ok, raise, ℕ, ◌∙◌}
use doc_search_ai.Errors.{Raises}
use doc_search_ai.Auth.Models.{WorkspaceContext}
use doc_search_ai.Parsers.{Bytes}
use doc_search_ai.Text.{Text}

-- A run in which nothing but an exception may hide the metadata store `l`.
abbrev pub Keeps : {Db W A : Type 0} → Records → Raises A × ServiceState Db W → Type 0
Keeps l ran = OnRaise ran (ran.1.records ≡ l)

pub then-Keeps :
    {Db W A B : Type 0} (l : Records) (f : A → Steps (ServiceState Db W) B)
    (ran : Raises A × ServiceState Db W)
    → ran.1.records ≡ l
    → ((a : A) (s : ServiceState Db W) → s.records ≡ l → Keeps l (f a s))
    → Keeps l (continue f ran)
then-Keeps l = continue-keeps (λ (s : ServiceState _ _). s.records) l

module _ {Db W : Type 0} where
  vectors-records :
      (r : Raises Db) (s : ServiceState Db W) → (written_vectors r s).1.records ≡ s.records
  vectors-records (ok db) s = refl
  vectors-records (raise e) s = refl

module _ {Vector F Db W : Type 0} (service : DocumentService Vector F Db W) where
  -- An upload that raises leaves the metadata store as it was.
  pub upload-Keeps :
      (document_id job_id : Text) (now : ℕ) (context : WorkspaceContext) (name type : Text)
      (bytes : Bytes) (level : Text) (s : ServiceState Db W)
      → Keeps s.records
          (Service.upload_document service document_id job_id now context name type bytes level s)
  unfolding Service.upload_document enqueue_job
  upload-Keeps document_id job_id now context name type bytes level s =
      then-Keeps s.records _ (lift (Service.validate_document_size service bytes) s) refl λ _ s1 h1.
        then-Keeps s.records _ (lift (service.parse (Service.normalize_filename name) bytes) s1) h1
          λ parsed s2 h2.
            then-Keeps s.records _ (on_world (service.storage_service.upload_document _ _ _ _ _) s2)
              h2 λ key s3 h3. tt

  -- So does a deletion.
  pub delete-Keeps :
      (context : WorkspaceContext) (document_id : Text) (s : ServiceState Db W)
      → Keeps s.records (Service.delete_document service context document_id s)
  unfolding Service.delete_document delete_vectors
  delete-Keeps context document_id s =
      then-Keeps s.records _ (lift (find_permitted service context document_id s.records) s) refl
        λ r s1 h1.
          then-Keeps s.records _ (delete_vectors service context.workspace_id document_id s1)
            (vectors-records _ s1 ∙ h1)
            λ _ s2 h2.
              then-Keeps s.records _
                (on_world (service.storage_service.delete_document r.storage_key) s2) h2
                λ _ s3 h3. tt

  -- So does a reindexing.
  pub reindex-Keeps :
      (job_id : Text) (context : WorkspaceContext) (document_id : Text) (s : ServiceState Db W)
      → Keeps s.records (Service.reindex_document service job_id context document_id s)
  unfolding Service.reindex_document delete_vectors enqueue_job
  reindex-Keeps job_id context document_id s =
      then-Keeps s.records _ (lift (find_permitted service context document_id s.records) s) refl
        λ r s1 h1.
          then-Keeps s.records _
            (on_world (service.storage_service.download_document r.storage_key) s1) h1
            λ bytes s2 h2.
              then-Keeps s.records _ (lift (Service.validate_document_size service bytes) s2) h2
                λ _ s3 h3.
                  then-Keeps s.records _ (lift (service.parse r.filename bytes) s3) h3
                    λ parsed s4 h4.
                      then-Keeps s.records _
                        (delete_vectors service context.workspace_id document_id s4)
                        (vectors-records _ s4 ∙ h4) λ _ s5 h5. tt
