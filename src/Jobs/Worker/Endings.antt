-- ===== src/Jobs/Worker/Endings.antt =====
-- What one step of the worker does to the queue and to the records of the documents.
use doc_search_ai.Documents.Models.{DocumentRecord}
use doc_search_ai.Jobs.InProcess.{Processor}
use doc_search_ai.Documents.Store.{get_document}
use doc_search_ai.Jobs.Worker.Outcomes.{
  retry_payload, written, ending_of, or_else-eq, no_attempts_left, update-redis, give_up-own,
  retry_taken, update-own, retry_refused, unavailable, Ending, processed_ok, started,
  map_option-twice, processed_raise, completed, retrying, failed,
}
use doc_search_ai.Jobs.Worker.{
  WorkerState, handle_failure, record_worker_event, give_up, or_else, process_job, with_status,
}
use doc_search_ai.Jobs.Base.{
  IndexDocumentJob, status_failed, status_queued, record_if_any, status_completed,
  status_processing,
}
use doc_search_ai.Text.{Text}
use doc_search_ai.Common.{
  ℕ, Result, ◌≡◌, map_option, if◌then◌else◌, ltb, Bool-cases, raise, inr, Result-cases, inl,
  run-cases, some, none, ok, refl, Option,
}
use doc_search_ai.Jobs.RedisQueue.{RedisClient, JobCodec, QueueConfig}

module _ {R P : Type 0} (client : RedisClient R) (codec : JobCodec) (config : QueueConfig)
    (decimal : ℕ → Text) (job : IndexDocumentJob) (reason : Text) (s : WorkerState R P) where
  abbrev pub pushed : Result Text (Unit {0}) × R
  pushed = client.rpush config.queue_key (retry_payload codec config job) s.redis

  abbrev pub handled : WorkerState R P
  handled = handle_failure client codec config decimal job reason s

  handle-own :
      get_document job.workspace_id job.document_id handled.records
      ≡ map_option
          (written (ending_of job (raise reason) pushed.0))
          (get_document job.workspace_id job.document_id s.records)
  unfolding record_worker_event
  handle-own = elim (Bool-cases (ltb job.attempt job.max_attempts)) [
    | inr b ↦ elim (Result-cases pushed.0) [
      | inl (tt, e) ↦
          rw (no_attempts_left client codec config decimal job reason s b, e, b)
            (give_up-own client codec config decimal job reason s)
      | inr (m, e) ↦
          rw (no_attempts_left client codec config decimal job reason s b, e, b)
            (give_up-own client codec config decimal job reason s)
    ]
    | inl b ↦ elim (run-cases pushed) [
      | inl (tt, r', e) ↦
          rw (retry_taken client codec config decimal job reason s b e, e, b)
            (update-own decimal job status_queued (some reason) none (record s { redis = r' }))
      | inr (m, r', e) ↦
          rw
            (
              retry_refused client codec config decimal job reason s b e,
              e,
              b,
              ← (or_else-eq m reason),
            )
            (give_up-own client codec config decimal job (or_else m reason) (record s {
              redis = r';
              events =
                  record_if_any (unavailable client codec config decimal job reason s m) s.events;
            }))
    ]
  ]

  -- Only a retry touches the queue.
  handle-redis : handled.redis ≡ (if ltb job.attempt job.max_attempts then pushed.1 else s.redis)
  unfolding record_worker_event give_up
  handle-redis = elim (Bool-cases (ltb job.attempt job.max_attempts)) [
    | inr b ↦
        rw (no_attempts_left client codec config decimal job reason s b, b)
          (update-redis decimal job status_failed (some reason) (some 0) s)
    | inl b ↦ elim (run-cases pushed) [
      | inl (tt, r', e) ↦
          rw (retry_taken client codec config decimal job reason s b e, b, e)
            (update-redis decimal job status_queued (some reason) none (record s { redis = r' }))
      | inr (m, r', e) ↦
          rw (retry_refused client codec config decimal job reason s b e, b, e)
            (update-redis decimal job status_failed (some (or_else m reason)) (some 0) (record s {
              redis = r';
              events =
                  record_if_any (unavailable client codec config decimal job reason s m) s.events;
            }))
    ]
  ]

-- The ending replaces what "processing" wrote.
written-processing :
    (e : Ending) (o : Option DocumentRecord)
    → map_option (λ a. written e (with_status status_processing none none a)) o
      ≡ map_option (written e) o
written-processing e none = refl
written-processing (completed count) (some a) = refl
written-processing (retrying reason) (some a) = refl
written-processing (failed reason) (some a) = refl

module _ {R P : Type 0} (client : RedisClient R) (codec : JobCodec) (config : QueueConfig)
    (decimal : ℕ → Text) (pipeline : Processor P) (job : IndexDocumentJob)
    (s : WorkerState R P) where
  -- What Redis says of a retry of the job.
  abbrev pub retried : Result Text (Unit {0}) × R
  retried = client.rpush config.queue_key (retry_payload codec config job) s.redis

  abbrev pub ending : Ending
  ending = ending_of job (pipeline job s.world).0 retried.0

  abbrev pub after_job : WorkerState R P
  after_job = process_job client codec config decimal pipeline job s

  -- The record of the job's document ends as the outcome says, and no record appears when there
  -- was none: completed with the number of chunks and no error; queued again with the reason while
  -- attempts are left and Redis takes the retry; failed with the reason and no
  -- chunks otherwise, where the reason is what Redis says of a retry that it refuses, if anything.
  pub process_job-get_document :
      get_document job.workspace_id job.document_id after_job.records
      ≡ map_option (written ending) (get_document job.workspace_id job.document_id s.records)
  process_job-get_document = elim (run-cases (pipeline job s.world)) [
    | inl (count, w, e) ↦
        rw
          (
            processed_ok client codec config decimal pipeline job s count w e,
            e,
            update-own decimal job status_completed none (some count)
                (record (started client codec config decimal pipeline job s) { world = w }),
            update-own decimal job status_processing none none s,
            map_option-twice,
          )
          refl
    | inr (reason, w, e) ↦
        rw
          (
            processed_raise client codec config decimal pipeline job s reason w e,
            e,
            handle-own client codec config decimal job reason
                (record (started client codec config decimal pipeline job s) { world = w }),
            update-own decimal job status_processing none none s,
            update-redis decimal job status_processing none none s,
            map_option-twice,
          )
          (written-processing (ending_of job (raise reason) retried.0) _)
  ]

  -- The queue changes only when a job that failed with attempts left is sent again, once.
  pub process_job-redis : after_job.redis ≡ elim (pipeline job s.world).0 [
    | ok _ ↦ s.redis
    | raise _ ↦ (if ltb job.attempt job.max_attempts then retried.1 else s.redis)
  ]
  process_job-redis = elim (run-cases (pipeline job s.world)) [
    | inl (count, w, e) ↦
        rw
          (
            processed_ok client codec config decimal pipeline job s count w e,
            e,
            update-redis decimal job status_completed none (some count)
                (record (started client codec config decimal pipeline job s) { world = w }),
          )
          (update-redis decimal job status_processing none none s)
    | inr (reason, w, e) ↦
        rw
          (
            processed_raise client codec config decimal pipeline job s reason w e,
            e,
            handle-redis client codec config decimal job reason
                (record (started client codec config decimal pipeline job s) { world = w }),
            update-redis decimal job status_processing none none s,
          )
          refl
  ]
