-- ===== src/Jobs/Worker.antt =====
-- backend/app/jobs/worker.py: `IndexingJobWorker`. The pipeline is a parameter: it changes the
-- outside world `P` and returns the number of chunks, or raises with a message. The queue and the
-- worker share one event store. Logging is left out.
pub mod Outcomes
pub mod Endings
pub mod Others
use doc_search_ai.Errors.{Raises}
use doc_search_ai.Jobs.InProcess.{Processor}
use doc_search_ai.Documents.Models.{DocumentRecord}
use doc_search_ai.Core.Events.{Severity, OperationEvent, warning, error}
use doc_search_ai.Jobs.Base.{
  Events, IndexDocumentJob, record_if_any, job_details, status_failed, status_processing,
  status_completed, status_queued,
}
use doc_search_ai.Jobs.RedisQueue.{RedisClient, JobCodec, QueueConfig, enqueue, pop}
use doc_search_ai.Text.{Text, text, text_eq}
use doc_search_ai.Common.{
  ℕ, Option, List, suc, none, some, ◌++◌, ◌∷◌, if◌then◌else◌, Bool, raise, [], ltb, ok, false, true,
}
use doc_search_ai.Documents.Store.{Records, get_document, record_document}

pub record WorkerState (R P : Type 0) : Type 0 where
  pub redis : R
  pub records : Records
  pub events : Events
  pub world : P

module _ (decimal : ℕ → Text) where
  -- The details of the worker's events; `decimal` is `str` of an int.
  abbrev pub attempt_details : IndexDocumentJob → List (Text × Text)
  attempt_details job =
      job_details job
      ++ (text "attempt", decimal job.attempt)
        ∷ (text "max_attempts", decimal job.max_attempts)
        ∷ []

  abbrev pub worker_event : Text → Severity → Text → IndexDocumentJob → OperationEvent
  worker_event event_type severity message job = record {
    event_type = event_type;
    severity = severity;
    source = text "indexing";
    message = message;
    details = attempt_details job;
  }

  abbrev pub missing_event : IndexDocumentJob → OperationEvent
  missing_event job =
      worker_event (text "indexing.metadata_missing") warning
        (text "Document metadata was not found for indexing job.") job

  abbrev pub retry_event : Text → IndexDocumentJob → OperationEvent
  retry_event reason job =
      worker_event (text "indexing.retry_scheduled") warning
        (text "Document indexing retry scheduled: " ++ reason) job

  abbrev pub failed_event : Text → IndexDocumentJob → OperationEvent
  failed_event reason job =
      worker_event (text "indexing.failed") error (text "Document indexing failed: " ++ reason) job

-- `record.model_copy(update=update)`: the chunk count changes only when one is given.
abbrev pub with_status : Text → Option Text → Option ℕ → DocumentRecord → DocumentRecord
with_status status reason none r = record r { indexing_status = status; indexing_error = reason }
with_status status reason (some count) r = record r {
  indexing_status = status;
  indexing_error = reason;
  chunk_count = count;
}

-- `text or default`, where the empty text counts as false.
abbrev pub or_else : Text → Text → Text
or_else [] default = default
or_else (c ∷ s) default = c ∷ s

unfoldable pub record_worker_event :
    {R P : Type 0} → OperationEvent → WorkerState R P → WorkerState R P
record_worker_event event s = record s { events = record_if_any event s.events }

module _ {R P : Type 0} (decimal : ℕ → Text) where
  unfoldable pub update_document_status :
      IndexDocumentJob → Text → Option Text → Option ℕ → WorkerState R P → WorkerState R P
  update_document_status job status reason count s =
      elim (get_document job.workspace_id job.document_id s.records) [
        | none ↦ record_worker_event (missing_event decimal job) s
        | some r ↦ record s {
          records = record_document (with_status status reason count r) s.records;
        }
      ]

module _ {R P : Type 0} (client : RedisClient R) (codec : JobCodec) (config : QueueConfig)
    (decimal : ℕ → Text) where
  -- The end of `_handle_failure`, where no retry was scheduled.
  unfoldable pub give_up : IndexDocumentJob → Text → WorkerState R P → WorkerState R P
  give_up job reason s =
      record_worker_event (failed_event decimal reason job)
        (update_document_status decimal job status_failed (some reason) (some 0) s)

  unfoldable pub handle_failure : IndexDocumentJob → Text → WorkerState R P → WorkerState R P
  handle_failure job reason s =
      let retry_job = record job { attempt = suc job.attempt } in
      let (dispatch, (redis', events')) =
        enqueue client codec config retry_job (s.redis, s.events) in
      let s' = record s { redis = redis'; events = events' } in
      if ltb job.attempt job.max_attempts
      then (if text_eq dispatch.status status_queued
          then record_worker_event (retry_event decimal reason retry_job)
              (update_document_status decimal job status_queued (some reason) none s')
          else give_up job
              (elim dispatch.failure_reason [ none ↦ reason | some r ↦ or_else r reason ]) s')
      else give_up job reason s

  -- After a job is popped: run the pipeline and write down how it ended.
  unfoldable pub process_job : Processor P → IndexDocumentJob → WorkerState R P → WorkerState R P
  process_job pipeline job s =
      let started = update_document_status decimal job status_processing none none s in
      let (result, world') = pipeline job started.world in
      let ran = record started { world = world' } in
      elim result [
        | raise reason ↦ handle_failure job reason ran
        | ok count ↦ update_document_status decimal job status_completed none (some count) ran
      ]

  unfoldable pub process_next : Processor P → WorkerState R P → Raises Bool × WorkerState R P
  process_next pipeline s =
      let (popped, redis') = pop client codec config s.redis in
      let s' = record s { redis = redis' } in
      elim popped [
        | raise e ↦ (raise e, s')
        | ok none ↦ (ok false, s')
        | ok (some job) ↦ (ok true, process_job pipeline job s')
      ]
