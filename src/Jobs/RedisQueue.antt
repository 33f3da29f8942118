-- ===== src/Jobs/RedisQueue.antt =====
-- backend/app/jobs/redis_queue.py: `RedisJobQueue`. The Redis client and the JSON encoding of a job
-- are parameters; `RedisLaws` and `CodecLaws` are what is documented of them.
pub mod Order
use doc_search_ai.Core.Events.{OperationEvent, error}
use doc_search_ai.Common.{Result, Option, ◌≡◌, ℕ, List, ok, raise, ◌++◌, none, ◌∷◌, [], some, ◌>>=◌}
use doc_search_ai.Errors.{Raises, other}
use doc_search_ai.Jobs.Base.{
  IndexDocumentJob, record_if_any, Events, JobDispatchResult, status_queued, job_details,
  status_failed,
}
use doc_search_ai.Text.{Text, text}

-- What `brpop` raises when the socket times out, or any other error.
pub data RedisError : Type 0 where
  timeout : RedisError
  failure : Text → RedisError

-- `items r key` is the list at a key, left end first.
pub record RedisClient (R : Type 0) : Type 0 where
  pub rpush : Text → Text → R → Result Text (Unit {0}) × R
  pub brpop : Text → R → Result RedisError (Option Text) × R
  pub llen : Text → R → Result Text ℕ
  pub items : R → Text → List Text

-- RPUSH adds at the right end; BRPOP takes from the right end, and reports nothing only when the
-- list is empty; LLEN counts.
pub record RedisLaws {R : Type 0} (client : RedisClient R) : Type 0 where
  pub rpush_ok :
      (key payload : Text) (r r' : R)
      → client.rpush key payload r ≡ (ok tt, r')
      → client.items r' key ≡ client.items r key ++ payload ∷ []
  pub brpop_some :
      (key payload : Text) (r r' : R)
      → client.brpop key r ≡ (ok (some payload), r')
      → client.items r key ≡ client.items r' key ++ payload ∷ []
  pub brpop_none :
      (key : Text) (r r' : R)
      → client.brpop key r ≡ (ok none, r')
      → (client.items r key ≡ []) × (client.items r' key ≡ [])

-- `json.dumps(asdict(job))` and `IndexDocumentJob(**json.loads(payload))`
pub record JobCodec : Type 0 where
  pub serialize : IndexDocumentJob → Text
  pub deserialize : Text → Raises IndexDocumentJob

pub record CodecLaws (codec : JobCodec) : Type 0 where
  pub round_trip : (job : IndexDocumentJob) → codec.deserialize (codec.serialize job) ≡ ok job

pub record QueueConfig : Type 0 where
  pub queue_key : Text
  pub max_attempts : ℕ

abbrev pub queue_unavailable_event : IndexDocumentJob → Text → OperationEvent
queue_unavailable_event job message = record {
  event_type = text "indexing.queue_unavailable";
  severity = error;
  source = text "indexing";
  message = text "Indexing queue is unavailable: " ++ message;
  details = job_details job;
}

module _ {R : Type 0} (client : RedisClient R) (codec : JobCodec) (config : QueueConfig) where
  unfoldable pub enqueue : IndexDocumentJob → R × Events → JobDispatchResult × (R × Events)
  unfolding record_if_any
  enqueue job (r, events) =
      let job' = record job { max_attempts = config.max_attempts } in
      let (pushed, r') = client.rpush config.queue_key (codec.serialize job') r in
      elim pushed [
        | ok _ ↦ (
          record {
            job_id = job.job_id;
            status = status_queued;
            chunk_count = 0;
            failure_reason = none;
          },
          (r', events),
        )
        | raise message ↦ (
          record {
            job_id = job.job_id;
            status = status_failed;
            chunk_count = 0;
            failure_reason = some message;
          },
          (r', record_if_any (queue_unavailable_event job' message) events),
        )
      ]

  unfoldable pub pop : R → Raises (Option IndexDocumentJob) × R
  pop r =
      let (popped, r') = client.brpop config.queue_key r in
      elim popped [
        | raise timeout ↦ (ok none, r')
        | raise (failure message) ↦ (raise (other message), r')
        | ok none ↦ (ok none, r')
        | ok (some payload) ↦ ((codec.deserialize payload >>= λ job. ok (some job)), r')
      ]

  unfoldable pub pending_count : R → Result Text ℕ
  pending_count r = client.llen config.queue_key r
