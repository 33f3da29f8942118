-- ===== src/Middleware/RateLimit.antt =====
-- backend/app/middleware/rate_limit.py: `RateLimiter`, one process with its buckets in memory.
-- Times are numbers of ticks, `unit` of them in a second, with exact arithmetic; the lock makes
-- `check` one step.
pub mod Window
pub mod Retry
use doc_search_ai.Text.{Text, text_eq}
use doc_search_ai.Common.{
  Bool, ℕ, List, ◌*◌, ◌∷◌, ◌+◌, ◌++◌, if◌then◌else◌, leb, ◌-◌, max, [], ◌/◌, length, false, true,
}

pub record RateLimitDecision : Type 0 where
  pub allowed : Bool
  pub limit : ℕ
  pub remaining : ℕ
  pub retry_after_seconds : ℕ
  pub reset_after_seconds : ℕ

pub record Limits : Type 0 where
  pub limit : ℕ
  pub window_seconds : ℕ
  pub unit : ℕ

abbrev pub window : Limits → ℕ
window c = c.window_seconds * c.unit

-- The deque of a key, oldest first.
abbrev pub Bucket : Type 0
Bucket = List ℕ

-- `_prune`: `bucket[0] <= now - window`, without negative numbers.
unfoldable pub prune : ℕ → ℕ → Bucket → Bucket
prune window now [] = []
prune window now (t ∷ ts) =
    let rest = prune window now ts in if leb (t + window) now then rest else t ∷ ts

-- `ceil(ticks / unit)`
abbrev pub ceil_div : ℕ → ℕ → ℕ
ceil_div ticks unit = (ticks + (unit - 1)) / unit

-- `_seconds_until_reset`; what is below 1 is 1, so that a difference cut off at 0 is no other case.
unfoldable pub seconds_until_reset : Limits → Bucket → ℕ → ℕ
seconds_until_reset c [] now = c.window_seconds
seconds_until_reset c (t ∷ ts) now = max 1 (ceil_div (window c + t - now) c.unit)

-- `check` on the bucket of the key.
unfoldable pub check_bucket : Limits → ℕ → Bucket → RateLimitDecision × Bucket
check_bucket c now bucket =
    let pruned = prune (window c) now bucket in
    let appended = pruned ++ now ∷ [] in
    if leb c.limit (length pruned)
    then (
      record {
        allowed = false;
        limit = c.limit;
        remaining = 0;
        retry_after_seconds = seconds_until_reset c pruned now;
        reset_after_seconds = seconds_until_reset c pruned now;
      },
      pruned,
    )
    else (
      record {
        allowed = true;
        limit = c.limit;
        remaining = c.limit - length appended;
        retry_after_seconds = 0;
        reset_after_seconds = seconds_until_reset c appended now;
      },
      appended,
    )

-- `_buckets`, a `defaultdict(deque)`.
abbrev pub Buckets : Type 0
Buckets = Text → Bucket

unfoldable pub check : Limits → ℕ → Text → Buckets → RateLimitDecision × Buckets
check c now key buckets =
    let (decision, bucket) = check_bucket c now (buckets key) in
    (decision, λ k. if text_eq key k then bucket else buckets k)
