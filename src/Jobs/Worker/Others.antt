-- ===== src/Jobs/Worker/Others.antt =====
-- The worker and the documents that a job is not about.
use doc_search_ai.Documents.Store.Lookup.{get-record}
use doc_search_ai.Jobs.Worker.Outcomes.{
  processed_ok, find-holds, no_attempts_left, retry_payload, retry_taken, started, same-with_status,
  retry_refused, processed_raise, unavailable,
}
use doc_search_ai.Jobs.InProcess.{Processor}
use doc_search_ai.Documents.Store.{same_document, get_document}
use doc_search_ai.Jobs.Worker.{
  update_document_status, record_worker_event, WorkerState, give_up, handle_failure, process_job,
  with_status, or_else,
}
use doc_search_ai.Documents.Models.{DocumentRecord}
use doc_search_ai.Jobs.RedisQueue.{RedisClient, JobCodec, QueueConfig}
use doc_search_ai.Common.{
  ℕ, Bool, ◌≡◌, ◌&&◌, false, Option, true, arith, Option-cases, some, Bool-cases, run-cases, inl,
  ltb, inr, none, refl,
}
use doc_search_ai.Jobs.Base.{
  IndexDocumentJob, status_failed, status_completed, status_queued, status_processing,
  record_if_any,
}
use doc_search_ai.Text.{Text, text_eq, text_eq_iff}

module _ (ws id : Text) where
  abbrev pub of_job : IndexDocumentJob → Bool
  of_job job = text_eq job.workspace_id ws && text_eq job.document_id id

  differs :
      (job : IndexDocumentJob) (r : DocumentRecord)
      → of_job job ≡ false
      → same_document job.workspace_id job.document_id r ≡ true
      → same_document ws id r ≡ false
  differs job r h own = ground (
    arith,
    text_eq_iff job.workspace_id ws,
    text_eq_iff job.document_id id,
    text_eq_iff r.workspace_id ws,
    text_eq_iff r.document_id id,
    text_eq_iff r.workspace_id job.workspace_id,
    text_eq_iff r.document_id job.document_id,
  )

  module _ {R P : Type 0} (decimal : ℕ → Text) where
    update-other :
        (job : IndexDocumentJob) (status : Text) (reason : Option Text) (count : Option ℕ)
        (s : WorkerState R P)
        → of_job job ≡ false
        → get_document ws id (update_document_status decimal job status reason count s).records
          ≡ get_document ws id s.records
    unfolding update_document_status record_worker_event get_document
    update-other job status reason count s h =
        elim (Option-cases (get_document job.workspace_id job.document_id s.records)) [
          | inl e ↦ rw (e, update_document_status) refl
          | inr (r, e) ↦
              let own = find-holds (same_document job.workspace_id job.document_id) s.records e in
              rw
                (
                  e,
                  update_document_status,
                  get-record ws id (with_status status reason count r) s.records,
                  same-with_status ws id status reason count r,
                  differs job r h own,
                )
                refl
        ]

  module _ {R P : Type 0} (client : RedisClient R) (codec : JobCodec) (config : QueueConfig)
      (decimal : ℕ → Text) (job : IndexDocumentJob) (h : of_job job ≡ false) where
    give_up-other :
        (reason : Text) (s : WorkerState R P)
        → get_document ws id (give_up client codec config decimal job reason s).records
          ≡ get_document ws id s.records
    unfolding give_up record_worker_event
    give_up-other reason s = update-other decimal job status_failed (some reason) (some 0) s h

    handle-other :
        (reason : Text) (s : WorkerState R P)
        → get_document ws id (handle_failure client codec config decimal job reason s).records
          ≡ get_document ws id s.records
    unfolding record_worker_event
    handle-other reason s = elim (Bool-cases (ltb job.attempt job.max_attempts)) [
      | inr b ↦
          rw (no_attempts_left client codec config decimal job reason s b) (give_up-other reason s)
      | inl b ↦
          elim (run-cases
            (client.rpush config.queue_key (retry_payload codec config job) s.redis)) [
              | inl (tt, r', e) ↦ rw (retry_taken client codec config decimal job reason s b e) (
                  update-other decimal job status_queued (some reason) none
                    (record s { redis = r' }) h)
              | inr (m, r', e) ↦ rw (retry_refused client codec config decimal job reason s b e) (
                  give_up-other (or_else m reason) (record s {
                    redis = r';
                    events =
                        record_if_any (unavailable client codec config decimal job reason s m)
                          s.events;
                  }))
            ]
    ]

    -- A job changes no record but that of its own document in its own workspace.
    pub process_job-other :
        (pipeline : Processor P) (s : WorkerState R P)
        → get_document ws id (process_job client codec config decimal pipeline job s).records
          ≡ get_document ws id s.records
    process_job-other pipeline s = elim (run-cases (pipeline job s.world)) [
      | inl (count, w, e) ↦
          rw
            (
              processed_ok client codec config decimal pipeline job s count w e,
              update-other decimal job status_completed none (some count)
                  (record (started client codec config decimal pipeline job s) { world = w }) h,
            )
            (update-other decimal job status_processing none none s h)
      | inr (reason, w, e) ↦
          rw
            (
              processed_raise client codec config decimal pipeline job s reason w e,
              handle-other reason
                  (record (started client codec config decimal pipeline job s) { world = w }),
            )
            (update-other decimal job status_processing none none s h)
    ]
