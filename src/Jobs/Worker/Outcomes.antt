-- ===== src/Jobs/Worker/Outcomes.antt =====
-- The branches of the worker, each as an equation.
use doc_search_ai.Core.Events.{OperationEvent}
use doc_search_ai.Jobs.InProcess.{Processor}
use doc_search_ai.Jobs.RedisQueue.{
  RedisClient, JobCodec, QueueConfig, enqueue, queue_unavailable_event,
}
use doc_search_ai.Documents.Store.Lookup.{get-record}
use doc_search_ai.Documents.Store.{Records, same_document, get_document}
use doc_search_ai.Jobs.Worker.{
  with_status, update_document_status, record_worker_event, WorkerState, or_else, process_job,
  handle_failure, give_up, retry_event,
}
use doc_search_ai.Text.{Text, text, text_eq_refl}
use doc_search_ai.Documents.Models.{DocumentRecord}
use doc_search_ai.Jobs.Base.{
  IndexDocumentJob, status_completed, status_queued, status_failed, status_processing,
  record_if_any, text_eq-failed,
}
use doc_search_ai.Common.{
  ℕ, find, Result, Bool, Option, ok, none, ◌≡◌, raise, if◌then◌else◌, some, Option-cases, ltb, true,
  refl, inl, ◌∷◌, inr, Bool-cases, subst, [], map_option, suc, ap, false, null,
}

-- How a job ends, from what the pipeline did and from whether Redis took the retry.
pub data Ending : Type 0 where
  completed : ℕ → Ending
  retrying failed : Text → Ending

abbrev pub ending_of : IndexDocumentJob → Result Text ℕ → Result Text (Unit {0}) → Ending
ending_of job (ok count) pushed = completed count
ending_of job (raise reason) (ok _) =
    if ltb job.attempt job.max_attempts then retrying reason else failed reason
ending_of job (raise reason) (raise m) =
    if ltb job.attempt job.max_attempts
    then failed (if null m then reason else m)
    else failed reason

pub or_else-eq : (m reason : Text) → or_else m reason ≡ (if null m then reason else m)
or_else-eq [] reason = refl
or_else-eq (c ∷ s) reason = refl

-- What a job that ended leaves in the record.
abbrev pub written : Ending → DocumentRecord → DocumentRecord
written (completed count) r = record r {
  indexing_status = text "completed";
  indexing_error = none;
  chunk_count = count;
}
written (retrying reason) r = record r {
  indexing_status = text "queued";
  indexing_error = some reason;
}
written (failed reason) r = record r {
  indexing_status = text "failed";
  indexing_error = some reason;
  chunk_count = 0;
}

-- What is sent to Redis when the job is tried again.
abbrev pub retry_payload : JobCodec → QueueConfig → IndexDocumentJob → Text
retry_payload codec config job =
    codec.serialize (record job { attempt = suc job.attempt; max_attempts = config.max_attempts })

pub find-holds :
    (p : DocumentRecord → Bool) (l : Records) {r : DocumentRecord} → find p l ≡ some r → p r ≡ true
unfolding find
find-holds p [] h = cc
find-holds p (x ∷ l) {r} h = elim (Bool-cases (p x)) [
  | inl e ↦ let k = rw (e, find) at h in let i : x ≡ r = cc in subst (λ y. p y ≡ true) i e
  | inr e ↦ find-holds p l (rw (e, find) at h)
]

pub same-with_status :
    (ws id status : Text) (reason : Option Text) (count : Option ℕ) (r : DocumentRecord)
    → same_document ws id (with_status status reason count r) ≡ same_document ws id r
same-with_status ws id status reason none r = refl
same-with_status ws id status reason (some count) r = refl

module _ {R P : Type 0} (decimal : ℕ → Text) where
  pub update-redis :
      (job : IndexDocumentJob) (status : Text) (reason : Option Text) (count : Option ℕ)
      (s : WorkerState R P)
      → (update_document_status decimal job status reason count s).redis ≡ s.redis
  unfolding update_document_status record_worker_event
  update-redis job status reason count s =
      elim (Option-cases (get_document job.workspace_id job.document_id s.records)) [
        | inl e ↦ rw (e, update_document_status) refl
        | inr (r, e) ↦ rw (e, update_document_status) refl
      ]

  update-world :
      (job : IndexDocumentJob) (status : Text) (reason : Option Text) (count : Option ℕ)
      (s : WorkerState R P)
      → (update_document_status decimal job status reason count s).world ≡ s.world
  unfolding update_document_status record_worker_event
  update-world job status reason count s =
      elim (Option-cases (get_document job.workspace_id job.document_id s.records)) [
        | inl e ↦ rw (e, update_document_status) refl
        | inr (r, e) ↦ rw (e, update_document_status) refl
      ]

  -- The record of the job's own document.
  pub update-own :
      (job : IndexDocumentJob) (status : Text) (reason : Option Text) (count : Option ℕ)
      (s : WorkerState R P)
      → get_document job.workspace_id job.document_id
          (update_document_status decimal job status reason count s).records
        ≡ map_option
            (with_status status reason count)
            (get_document job.workspace_id job.document_id s.records)
  unfolding update_document_status record_worker_event get_document
  update-own job status reason count s =
      elim (Option-cases (get_document job.workspace_id job.document_id s.records)) [
        | inl e ↦ rw (e, update_document_status) e
        | inr (r, e) ↦
            let own = find-holds (same_document job.workspace_id job.document_id) s.records e in
            rw
              (
                e,
                update_document_status,
                get-record job.workspace_id job.document_id (with_status status reason count r)
                    s.records,
                same-with_status job.workspace_id job.document_id status reason count r,
                own,
              )
              refl
      ]

pub map_option-twice :
    {A : Type 0} (f g : A → A) (o : Option A)
    → map_option f (map_option g o) ≡ map_option (λ a. f (g a)) o
map_option-twice f g none = refl
map_option-twice f g (some a) = refl

module _ {R P : Type 0} (client : RedisClient R) (codec : JobCodec) (config : QueueConfig)
    (decimal : ℕ → Text) (pipeline : Processor P) (job : IndexDocumentJob)
    (s : WorkerState R P) where
  abbrev pub started : WorkerState R P
  started = update_document_status decimal job status_processing none none s

  abbrev pub processed : WorkerState R P
  processed = process_job client codec config decimal pipeline job s

  pub processed_ok :
      (count : ℕ) (w : P)
      → pipeline job s.world ≡ (ok count, w)
      → processed
        ≡ update_document_status decimal job status_completed none
            (some count)
            (record started { world = w })
  unfolding process_job
  processed_ok count w e =
      let e' = rw (← update-world decimal job status_processing none none s) at e in
      rw (process_job, e')
        (ap
          (λ v.
            update_document_status decimal job status_completed none (some count)
              (record started { world = v }))
          (ap (λ p. p.1) e'))

  pub processed_raise :
      (reason : Text) (w : P)
      → pipeline job s.world ≡ (raise reason, w)
      → processed
        ≡ handle_failure client codec config decimal job reason (record started { world = w })
  unfolding process_job
  processed_raise reason w e =
      let e' = rw (← update-world decimal job status_processing none none s) at e in
      rw (process_job, e')
        (ap
          (λ v.
            handle_failure client codec config decimal job reason (record started { world = v }))
          (ap (λ p. p.1) e'))

module _ {R P : Type 0} (client : RedisClient R) (codec : JobCodec) (config : QueueConfig)
    (decimal : ℕ → Text) (job : IndexDocumentJob) (reason : Text) (s : WorkerState R P) where
  pub give_up-own :
      get_document job.workspace_id job.document_id
        (give_up {R = R} client codec config decimal job reason s).records
      ≡ map_option
          (written (failed reason))
          (get_document job.workspace_id job.document_id s.records)
  unfolding give_up record_worker_event
  give_up-own = update-own decimal job status_failed (some reason) (some 0) s

module _ {R P : Type 0} (client : RedisClient R) (codec : JobCodec) (config : QueueConfig)
    (decimal : ℕ → Text) (job : IndexDocumentJob) (reason : Text) (s : WorkerState R P) where
  pub no_attempts_left :
      ltb job.attempt job.max_attempts ≡ false
      → handle_failure client codec config decimal job reason s
        ≡ give_up client codec config decimal job reason s
  unfolding handle_failure
  no_attempts_left b = rw (b, handle_failure) refl

  pub retry_taken :
      {r' : R}
      → ltb job.attempt job.max_attempts ≡ true
      → client.rpush config.queue_key (retry_payload codec config job) s.redis ≡ (ok tt, r')
      → handle_failure client codec config decimal job reason s
        ≡ record_worker_event
            (retry_event decimal reason (record job { attempt = suc job.attempt }))
            (update_document_status decimal job status_queued
              (some reason)
              none
              (record s { redis = r' }))
  unfolding handle_failure enqueue
  retry_taken b e =
      rw (b, handle_failure, enqueue, e, text_eq_refl)
        (ap
          (λ r.
            record_worker_event
              (retry_event decimal reason (record job { attempt = suc job.attempt }))
              (update_document_status decimal job status_queued (some reason) none
                (record s { redis = r })))
          (ap (λ p. p.1) e))

  -- The event of a retry that Redis did not take.
  abbrev pub unavailable : Text → OperationEvent
  unavailable m =
      queue_unavailable_event
        (record job { attempt = suc job.attempt; max_attempts = config.max_attempts }) m

  pub retry_refused :
      {r' : R} {m : Text}
      → ltb job.attempt job.max_attempts ≡ true
      → client.rpush config.queue_key (retry_payload codec config job) s.redis ≡ (raise m, r')
      → handle_failure client codec config decimal job reason s
        ≡ give_up client codec config decimal job
            (or_else m reason)
            (record s { redis = r'; events = record_if_any (unavailable m) s.events })
  unfolding handle_failure enqueue
  retry_refused {r'} {m} b e =
      rw (b, handle_failure, enqueue, e, text_eq-failed)
        (ap
          (λ r.
            give_up client codec config decimal job (or_else m reason)
              (record s { redis = r; events = record_if_any (unavailable m) s.events }))
          (ap (λ p. p.1) e))
