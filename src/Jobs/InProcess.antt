-- ===== src/Jobs/InProcess.antt =====
-- backend/app/jobs/inprocess.py: `InProcessJobQueue`. The processor is a parameter: it changes the
-- outside world `P` and returns a result, of which only `chunk_count` is read, or raises with a
-- message.
use doc_search_ai.Core.Events.{OperationEvent, error}
use doc_search_ai.Common.{Result, ℕ, ok, ◌++◌, none, raise, some}
use doc_search_ai.Text.{Text, text}
use doc_search_ai.Jobs.Base.{
  IndexDocumentJob, record_if_any, Events, JobDispatchResult, status_completed, job_details,
  status_failed,
}

abbrev pub failure_event : IndexDocumentJob → Text → OperationEvent
failure_event job message = record {
  event_type = text "indexing.failed";
  severity = error;
  source = text "indexing";
  message = text "Document indexing failed: " ++ message;
  details = job_details job;
}

abbrev pub Processor : Type 0 → Type 0
Processor P = IndexDocumentJob → P → Result Text ℕ × P

module _ {P : Type 0} (processor : Processor P) where
  unfoldable pub enqueue : IndexDocumentJob → P × Events → JobDispatchResult × (P × Events)
  unfolding record_if_any
  enqueue job (world, events) =
      let (result, world') = processor job world in
      elim result [
        | ok count ↦ (
          record {
            job_id = job.job_id;
            status = status_completed;
            chunk_count = count;
            failure_reason = none;
          },
          (world', events),
        )
        | raise message ↦ (
          record {
            job_id = job.job_id;
            status = status_failed;
            chunk_count = 0;
            failure_reason = some message;
          },
          (world', record_if_any (failure_event job message) events),
        )
      ]
