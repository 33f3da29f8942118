-- ===== src/Examples/Queue.antt =====
-- A job on the queue, and the worker that runs it.
use doc_search_ai.Retrieval.Filters.{}
use doc_search_ai.Jobs.Worker.Endings.{process_job-redis, process_job-get_document}
use doc_search_ai.Jobs.Worker.Outcomes.{written, retry_payload, retrying}
use doc_search_ai.Examples.Records.{two_documents}
use doc_search_ai.Jobs.Worker.Others.{of_job, process_job-other}
use doc_search_ai.Jobs.RedisQueue.Order.{pop-enqueue}
use doc_search_ai.Examples.Codec.{
  list_client, job_codec, list_client-RedisLaws, job_codec-CodecLaws, write_job, read_field, encode,
}
use doc_search_ai.Text.{text_eq, text, Text}
use doc_search_ai.Documents.Store.{get_document}
use doc_search_ai.Jobs.Worker.{WorkerState, process_job}
use doc_search_ai.Jobs.InProcess.{Processor}
use doc_search_ai.Common.{
  List, ◌≡◌, ℕ, raise, none, ◌∷◌, ◌+◌, false, [], ◌++◌, map_option, refl, ok, some,
}
use doc_search_ai.Jobs.Base.{IndexDocumentJob, JobDispatchResult, status_queued}
use doc_search_ai.Jobs.RedisQueue.{QueueConfig, enqueue, pop}

abbrev config : QueueConfig
config = record { queue_key = text "q"; max_attempts = 3 }

abbrev job : IndexDocumentJob
job = record {
  job_id = text "j";
  workspace_id = text "w1";
  workspace_name = text "w1";
  document_id = text "a";
  filename = text "a";
  content_type = text "t";
  storage_key = text "k";
  uploaded_by_employee_id = none;
  security_level = text "general";
  attempt = 1;
  max_attempts = 3;
}

abbrev queued : JobDispatchResult
queued = record {
  job_id = text "j";
  status = status_queued;
  chunk_count = 0;
  failure_reason = none;
}

abbrev waiting : List Text
waiting = text "older" ∷ []

job_sent :
    enqueue list_client job_codec config job (waiting, none)
    ≡ (queued, (waiting ++ write_job job ∷ [], none))
unfolding enqueue
job_sent = refl

job_taken :
    pop list_client job_codec config (waiting ++ write_job job ∷ []) ≡ (ok (some job), waiting)
unfolding pop read_field encode
job_taken = refl

pop-enqueue_example : (job ≡ record job { max_attempts = 3 }) × (waiting ≡ waiting)
pop-enqueue_example =
    pop-enqueue list_client list_client-RedisLaws job_codec job_codec-CodecLaws config job job
      waiting (waiting ++ write_job job ∷ []) waiting none none queued job_sent refl job_taken

-- A pipeline that fails.
abbrev fails : Processor ℕ
fails _ n = (raise (text "no text"), n)

abbrev state : WorkerState (List Text) ℕ
state = record { redis = waiting; records = two_documents; events = none; world = 0 }

abbrev one_digit : ℕ → Text
one_digit n = (48 + n) ∷ []

process_job-get_document_example :
    get_document
      (text "w1")
      (text "a")
      (process_job list_client job_codec config one_digit fails job state).records
    ≡ map_option
        (written (retrying (text "no text")))
        (get_document (text "w1") (text "a") two_documents)
process_job-get_document_example =
    process_job-get_document list_client job_codec config one_digit fails job state

process_job-redis_example :
    (process_job list_client job_codec config one_digit fails job state).redis
    ≡ waiting ++ retry_payload job_codec config job ∷ []
process_job-redis_example = process_job-redis list_client job_codec config one_digit fails job state

other_document : of_job (text "w2") (text "b") job ≡ false
unfolding text_eq
other_document = refl

process_job-other_example :
    get_document
      (text "w2")
      (text "b")
      (process_job list_client job_codec config one_digit fails job state).records
    ≡ get_document (text "w2") (text "b") two_documents
process_job-other_example =
    process_job-other (text "w2") (text "b") list_client job_codec config one_digit job
      other_document fails state
