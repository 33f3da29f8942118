-- ===== src/Lib.antt =====
-- DocSearch AI is a service that answers questions from the documents of a workspace. Documents
-- are uploaded, cut into chunks and indexed in a vector store by a worker; a search or a chat
-- question is restricted to the caller's workspace and to the security levels of the caller's
-- role; every answer is written to an audit log. This library models the decisions of the
-- backend, backend/app, as executable functions, and shows what they guarantee.
--
-- The parts and their files:
-- - Common, Text: lists, Boolean tests, code that may raise (`Result`), Python's strings as lists
--   of code points with `strip`, `split` and `join`.
-- - Errors: the exceptions that pass between the parts. Steps: methods that change an object and
--   may raise, as functions from a state to a result beside the new state.
-- - Auth/Models, Documents/Models: the records of backend/app/auth/models.py and
--   backend/app/documents/models.py.
-- - Auth/Tokens, Auth/Keys, Auth/Service: backend/app/auth/service.py and
--   backend/app/auth/store.py; the state is the dictionary of `InMemoryAuthUserStore`.
--   Auth/Router: backend/app/auth/dependencies.py and backend/app/auth/router.py.
-- - Parsers: backend/app/parsers, the registry and the four parsers.
-- - Storage/Minio: backend/app/storage/minio.py, the keys of the files and the operations.
-- - Documents/Security: backend/app/documents/security.py, which levels a role may use.
-- - Documents/Store: backend/app/documents/store.py, `InMemoryDocumentMetadataStore`; its state
--   is the list of records.
-- - Documents/Service and Documents/Router: backend/app/documents/service.py and
--   backend/app/documents/router.py (`upload`, `delete`, `reindex` and `list_visible` are its
--   handlers); the state has the vector database, the outside world and the metadata store.
-- - Indexing/Chunker: backend/app/indexing/chunker.py, `CharacterChunker`. Indexing/Embedder and
--   Indexing/Pipeline: backend/app/indexing/embedder.py and backend/app/indexing/pipeline.py.
-- - Retrieval/Filters, Retrieval/Store, Retrieval/Retriever: backend/app/retrieval/filters.py,
--   backend/app/retrieval/qdrant_store.py (`search_vectors` is its method `search`) and
--   backend/app/retrieval/retriever.py. Retrieval/Upsert: `upsert_chunks` of the second.
-- - Search/Route: backend/app/search/router.py.
-- - Chat/Rerank: backend/app/reranking/base.py and backend/app/reranking/bge_client.py.
--   Chat/Citations, Chat/Service and Chat/Answering: backend/app/chat/service.py, with each early
--   return of `answer` as a function of its own. Chat/Route: backend/app/chat/router.py.
-- - Llm/Client: backend/app/llm/vllm_client.py, the retry loop and the parsing of a response.
-- - Audit/Store: backend/app/audit/store.py, `InMemoryAuditLogStore`. Audit/Export:
--   backend/app/audit/export.py. Audit/Router: backend/app/audit/router.py.
-- - Middleware/RateLimit: backend/app/middleware/rate_limit.py, the class `RateLimiter`; the
--   state is the deque of each key. Middleware/Redis: `RedisRateLimitStore` with its script.
--   Middleware/Dispatch: `RateLimitMiddleware`, over the store and the application behind it.
-- - Core/Events: backend/app/core/operation_events.py. Core/Readiness:
--   backend/app/core/operations.py and backend/app/core/dependency_health.py.
-- - Jobs: backend/app/jobs/base.py, backend/app/jobs/inprocess.py,
--   backend/app/jobs/redis_queue.py and backend/app/jobs/worker.py; the worker's state is the
--   Redis server, the metadata store, the event store and the world of the pipeline.
-- - Examples: the theorems at concrete inputs.
--
-- How they interact: the routes restrict the requested levels (Documents/Security) and give the
-- retriever a filter; the retriever asks the vector store, whose client is given the filter that
-- Retrieval/Filters builds; the chat service gives what comes back to the reranker and the model,
-- and writes the audit event. Every route is given the context that Auth/Router makes of an API key
-- or a token. The document service stores a file, puts a job on the queue and writes the metadata;
-- the job is what the pipeline indexes. The worker takes jobs from the queue, and writes their
-- state into the metadata store and the event store.
--
-- Numbers: Python's integers are native natural numbers where no negative one occurs, and `ℤ`
-- where a guard looks for one. Times in the rate limiter are ticks, a fixed number in a second,
-- with exact arithmetic, where the source has floating-point seconds. Scores are of an abstract
-- type with the operations that the source uses.
--
-- Fuel: the loop of the chunker runs on fuel, as many rounds as the text has characters; it is
-- shown that this is enough. All other loops are structural recursion.
--
-- Parameters: the Qdrant client, the MinIO client, the Redis client and its sorted sets, the HTTP
-- requests to the embedding and reranking services and to the language model's server, the
-- embedder, the language model, the decoder of UTF-8, regular expressions, the readers of PDF and
-- DOCX files, the hash functions, base64, JSON, the writer of csv, the salts and ids that are
-- drawn, the probes of dependencies, `str.lower`, the classes of digits and of word characters, and
-- `str` of an int. The laws that are assumed of the Qdrant client, the Redis client, JSON and the
-- cryptographic library are the records `ClientLaws` and `UpsertLaws`, `RedisLaws` and
-- `SortedSetLaws`, `CodecLaws` and `CryptoLaws`.
--
-- Not modelled: the overview of operations; the expiry of the rate limiter's keys in Redis; the
-- functions that make the objects from the settings; the stores on Postgres and the settings, which
-- are calls of other systems; logging; the validation that pydantic does before a handler runs; the
-- frontend.
pub mod Audit
pub mod Auth
pub mod Chat
pub mod Common
pub mod Core
pub mod Documents
pub mod Errors
pub mod Examples
pub mod Indexing
pub mod Jobs
pub mod Llm
pub mod Middleware
pub mod Parsers
pub mod Retrieval
pub mod Search
pub mod Steps
pub mod Storage
pub mod Text
