-- ===== src/Jobs.antt =====
-- backend/app/jobs: the jobs, the two queues, the worker.
pub mod Base
pub mod InProcess
pub mod RedisQueue
pub mod Worker
