-- ===== src/Documents/Service/Successes.antt =====
-- What an operation has done when it returns.
use doc_search_ai.Documents.Security.{ensure_document_security_level_allowed}
use doc_search_ai.Documents.Store.{Records}
use doc_search_ai.Errors.{Raises}
use doc_search_ai.Text.{Text}
use doc_search_ai.Steps.{continue-eq-ok, lift}
use doc_search_ai.Documents.Models.{DocumentUploadResponse, DocumentDeleteResponse, DocumentRecord}
use doc_search_ai.Documents.Service as Service
use doc_search_ai.Documents.Service.{
  DocumentService, ServiceState, on_world, written_vectors, enqueue_job, delete_vectors,
  find_permitted, record_of_response, reindexed, normalize_filename, validate_document_size,
  upload_response,
}
use doc_search_ai.Documents.Store as Metadata
use doc_search_ai.Retrieval.Store as Vectors
use doc_search_ai.Jobs.Base.{JobDispatchResult}
use doc_search_ai.Auth.Models.{WorkspaceContext}
use doc_search_ai.Parsers.{Bytes, ParsedDocument}
use doc_search_ai.Common.{
  ◌≡◌, ok, ℕ, ◌≤◌, ap, arith, length, ok-injective, sym, ◌∙◌, raise, some, refl, Option-cases, inl,
  inr, Result-cases, true,
}

module _ {Vector F Db W : Type 0} (service : DocumentService Vector F Db W) where
  -- A file that is not too large and can be read was stored, and a record of it was made.
  pub record Uploaded (document_id : Text) (now : ℕ) (context : WorkspaceContext) (name : Text)
      (bytes : Bytes) (level : Text) (s : ServiceState Db W) (response : DocumentUploadResponse)
      (t : ServiceState Db W) : Type 0 where
    pub small : length bytes ≤ service.max_document_bytes
    pub parsed : ParsedDocument
    pub readable : service.parse (normalize_filename name) bytes ≡ ok parsed
    pub storage_key : Text
    pub dispatch : JobDispatchResult
    pub answered :
        response
        ≡ upload_response context document_id level
            (normalize_filename name)
            parsed
            storage_key
            dispatch
    pub recorded : t.records ≡ Metadata.record_document (record_of_response response now) s.records

  size_checked :
      (bytes : Bytes) {u : Unit {0}}
      → validate_document_size service bytes ≡ ok u
      → length bytes ≤ service.max_document_bytes
  unfolding validate_document_size
  size_checked bytes e = ground arith

  pub upload-Uploaded :
      (document_id job_id : Text) (now : ℕ) (context : WorkspaceContext) (name type : Text)
      (bytes : Bytes) (level : Text) (s : ServiceState Db W) (response : DocumentUploadResponse)
      (t : ServiceState Db W)
      → Service.upload_document service document_id job_id now context name type bytes level s
        ≡ (ok response, t)
      → Uploaded document_id now context name bytes level s response t
  unfolding Service.upload_document enqueue_job
  upload-Uploaded document_id job_id now context name type bytes level s response t h =
      let (_, s1, e1, h1) = continue-eq-ok _ (lift (validate_document_size service bytes) s) h in
      let (parsed, s2, e2, h2) =
        continue-eq-ok _ (lift (service.parse (normalize_filename name) bytes) s1) h1 in
      let (key, s3, e3, h3) =
        continue-eq-ok _ (on_world (service.storage_service.upload_document _ _ _ _ _) s2) h2 in
      let answer = ok-injective (ap (λ p. p.0) h3) in
      let same : s3.records ≡ s.records =
        sym (ap (λ p. p.1.records) e3)
        ∙ sym (ap (λ p. p.1.records) e2)
        ∙ sym (ap (λ p. p.1.records) e1) in
      record {
        small = size_checked bytes (ap (λ p. p.0) e1);
        parsed = parsed;
        readable = ap (λ p. p.0) e2;
        storage_key = key;
        dispatch = (service.enqueue _ (s3.vectors, s3.world)).0;
        answered = sym answer;
        recorded =
            sym (ap (λ p. p.1.records) h3)
            ∙ ap (λ r. Metadata.record_document (record_of_response r now) s3.records) answer
            ∙ ap (Metadata.record_document (record_of_response response now)) same;
      }

written-ok :
    {Db W : Type 0} (r : Raises Db) (s : ServiceState Db W) {u : Unit {0}} {t : ServiceState Db W}
    → written_vectors r s ≡ (ok u, t)
    → (db : Db) × (r ≡ ok db) × (t ≡ record s { vectors = db })
written-ok (ok db) s h = (db, refl, sym (ap (λ p. p.1) h))
written-ok (raise e) s h = absurd cc

module _ {Vector F Db W : Type 0} (service : DocumentService Vector F Db W) where
  pub permitted :
      (context : WorkspaceContext) (document_id : Text) (records : Records) {r : DocumentRecord}
      → find_permitted service context document_id records ≡ ok r
      → (Metadata.get_document context.workspace_id document_id records ≡ some r)
        × (ensure_document_security_level_allowed context.role r.security_level ≡ ok tt)
  unfolding find_permitted
  permitted context document_id records {r} h =
      elim (Option-cases (Metadata.get_document context.workspace_id document_id records)) [
        | inl e ↦ absurd (cc (rw (e, find_permitted) at h))
        | inr (x, e) ↦
            elim (Result-cases
              (ensure_document_security_level_allowed context.role x.security_level)) [
                | inl (_, accepted) ↦
                    let same : x ≡ r = ok-injective (rw (e, accepted, find_permitted) at h) in
                    rw (← same) (e, accepted)
                | inr (_, refused) ↦ absurd (cc (rw (e, refused, find_permitted) at h))
              ]
      ]

  -- The document is gone from the vectors, from the storage and from the metadata.
  pub record Deleted (context : WorkspaceContext) (document_id : Text) (s : ServiceState Db W)
      (response : DocumentDeleteResponse) (t : ServiceState Db W) : Type 0 where
    pub old : DocumentRecord
    pub found : Metadata.get_document context.workspace_id document_id s.records ≡ some old
    pub allowed : ensure_document_security_level_allowed context.role old.security_level ≡ ok tt
    pub cleaned :
        Vectors.delete_document service.vector_client s.vectors context.workspace_id document_id
        ≡ ok t.vectors
    pub freed : service.storage_service.delete_document old.storage_key s.world ≡ (ok tt, t.world)
    pub removed :
        t.records ≡ (Metadata.delete_document context.workspace_id document_id s.records).1
    pub answered :
        response
        ≡ record { document_id = document_id; workspace_id = context.workspace_id; deleted = true }

  pub delete-Deleted :
      (context : WorkspaceContext) (document_id : Text) (s : ServiceState Db W)
      (response : DocumentDeleteResponse) (t : ServiceState Db W)
      → Service.delete_document service context document_id s ≡ (ok response, t)
      → Deleted context document_id s response t
  unfolding Service.delete_document delete_vectors
  delete-Deleted context document_id s response t h =
      let (old, s1, e1, h1) =
        continue-eq-ok _ (lift (find_permitted service context document_id s.records) s) h in
      let (_, s2, e2, h2) =
        continue-eq-ok _ (delete_vectors service context.workspace_id document_id s1) h1 in
      let (db, cleaned, same2) = written-ok _ s1 e2 in
      let (_, s3, e3, h3) =
        continue-eq-ok _ (on_world (service.storage_service.delete_document old.storage_key) s2)
          h2 in
      let (found, allowed) = permitted context document_id s.records (ap (λ p. p.0) e1) in
      let world : s.world ≡ s2.world =
        ap (λ p. p.1.world) e1 ∙ sym (ap (λ (x : ServiceState Db W). x.world) same2) in
      let db_kept : db ≡ t.vectors =
        sym (ap (λ (x : ServiceState Db W). x.vectors) same2)
        ∙ ap (λ p. p.1.vectors) e3
        ∙ ap (λ p. p.1.vectors) h3 in
      let records : s3.records ≡ s.records =
        sym (ap (λ p. p.1.records) e3)
        ∙ ap (λ (x : ServiceState Db W). x.records) same2
        ∙ sym (ap (λ p. p.1.records) e1) in
      record {
        old = old;
        found = found;
        allowed = allowed;
        cleaned =
            ap
              (λ v.
                Vectors.delete_document service.vector_client v context.workspace_id document_id)
              (ap (λ p. p.1.vectors) e1)
            ∙ cleaned
            ∙ ap ok db_kept;
        freed =
            ap (service.storage_service.delete_document old.storage_key) world
            ∙ ap (λ p. (p.0, p.1.world)) e3
            ∙ ap (λ w. (ok tt, w)) (ap (λ p. p.1.world) h3);
        removed =
            sym (ap (λ p. p.1.records) h3)
            ∙ ap (λ l. (Metadata.delete_document context.workspace_id document_id l).1) records;
        answered = sym (ok-injective (ap (λ p. p.0) h3));
      }

  -- The stored file was read and parsed again, the old vectors were deleted, and the record has
  -- what the new run gave.
  pub record Reindexed (context : WorkspaceContext) (document_id : Text) (s : ServiceState Db W)
      (updated : DocumentRecord) (t : ServiceState Db W) : Type 0 where
    pub old : DocumentRecord
    pub found : Metadata.get_document context.workspace_id document_id s.records ≡ some old
    pub allowed : ensure_document_security_level_allowed context.role old.security_level ≡ ok tt
    pub bytes : Bytes
    pub small : length bytes ≤ service.max_document_bytes
    pub parsed : ParsedDocument
    pub readable : service.parse old.filename bytes ≡ ok parsed
    pub cleared : Db
    pub cleaned :
        Vectors.delete_document service.vector_client s.vectors context.workspace_id document_id
        ≡ ok cleared
    pub dispatch : JobDispatchResult
    pub answered : updated ≡ reindexed context parsed dispatch old
    pub recorded : t.records ≡ Metadata.record_document updated s.records

  pub reindex-Reindexed :
      (job_id : Text) (context : WorkspaceContext) (document_id : Text) (s : ServiceState Db W)
      (updated : DocumentRecord) (t : ServiceState Db W)
      → Service.reindex_document service job_id context document_id s ≡ (ok updated, t)
      → Reindexed context document_id s updated t
  unfolding Service.reindex_document delete_vectors enqueue_job
  reindex-Reindexed job_id context document_id s updated t h =
      let (old, s1, e1, h1) =
        continue-eq-ok _ (lift (find_permitted service context document_id s.records) s) h in
      let (bytes, s2, e2, h2) =
        continue-eq-ok _ (on_world (service.storage_service.download_document old.storage_key) s1)
          h1 in
      let (_, s3, e3, h3) = continue-eq-ok _ (lift (validate_document_size service bytes) s2) h2 in
      let (parsed, s4, e4, h4) = continue-eq-ok _ (lift (service.parse old.filename bytes) s3) h3 in
      let (_, s5, e5, h5) =
        continue-eq-ok _ (delete_vectors service context.workspace_id document_id s4) h4 in
      let (db, cleaned, same5) = written-ok _ s4 e5 in
      let (found, allowed) = permitted context document_id s.records (ap (λ p. p.0) e1) in
      let answer = ok-injective (ap (λ p. p.0) h5) in
      let vectors : s.vectors ≡ s4.vectors =
        ap (λ p. p.1.vectors) e1
        ∙ ap (λ p. p.1.vectors) e2
        ∙ ap (λ p. p.1.vectors) e3
        ∙ ap (λ p. p.1.vectors) e4 in
      let records : s5.records ≡ s.records =
        ap (λ (x : ServiceState Db W). x.records) same5
        ∙ sym (ap (λ p. p.1.records) e4)
        ∙ sym (ap (λ p. p.1.records) e3)
        ∙ sym (ap (λ p. p.1.records) e2)
        ∙ sym (ap (λ p. p.1.records) e1) in
      record {
        old = old;
        found = found;
        allowed = allowed;
        bytes = bytes;
        small = size_checked service bytes (ap (λ p. p.0) e3);
        parsed = parsed;
        readable = ap (λ p. p.0) e4;
        cleared = db;
        cleaned =
            ap
              (λ v.
                Vectors.delete_document service.vector_client v context.workspace_id document_id)
              vectors
            ∙ cleaned;
        dispatch = (service.enqueue _ (s5.vectors, s5.world)).0;
        answered = sym answer;
        recorded =
            sym (ap (λ p. p.1.records) h5)
            ∙ ap (λ r. Metadata.record_document r s5.records) answer
            ∙ ap (Metadata.record_document updated) records;
      }
