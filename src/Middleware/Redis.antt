-- ===== src/Middleware/Redis.antt =====
-- backend/app/middleware/rate_limit.py: `RedisRateLimitStore` and its Lua script. Times are whole
-- milliseconds. The sorted set that a key holds is third-party code: `SortedSet` has the commands
-- that the script calls, and `SortedSetLaws` what Redis documents. PEXPIRE, which drops a key when
-- all its entries are old, is left out.
pub mod Same
use doc_search_ai.Middleware.RateLimit.{RateLimitDecision, Limits, ceil_div}
use doc_search_ai.Text.{Text}
use doc_search_ai.Common.{
  Bool, false, ℕ, List, [], ◌∷◌, ◌++◌, ◌+◌, ◌-◌, ◌*◌, ◌≤◌, ◌==◌, max, not, Result, ok, raise, All,
  filter, ltb, leb, length, if◌then◌else◌, ◌≡◌,
}

pub record SortedSet (Z : Type 0) : Type 0 where
  -- the scores of the members, the lowest first
  pub scores : Z → List ℕ
  -- `ZREMRANGEBYSCORE key 0 (now - window)`, with the window and the time
  pub zremrangebyscore : ℕ → ℕ → Z → Z
  pub zadd : ℕ → Text → Z → Z
  -- `ZSCORE key member` finds something
  pub has_member : Text → Z → Bool

-- A range ends at the score `now - window`, and its removal makes no member; a member that is not yet
-- in the set and whose score is the highest comes last.
pub record SortedSetLaws {Z : Type 0} (redis : SortedSet Z) : Type 0 where
  pub removed :
      (window now : ℕ) (z : Z)
      → redis.scores (redis.zremrangebyscore window now z)
        ≡ filter (λ t. ltb now (t + window)) (redis.scores z)
  pub none_made :
      (window now : ℕ) (member : Text) (z : Z)
      → redis.has_member member z ≡ false
      → redis.has_member member (redis.zremrangebyscore window now z) ≡ false
  pub added :
      (score : ℕ) (member : Text) (z : Z)
      → redis.has_member member z ≡ false
      → All (λ t. t ≤ score) (redis.scores z)
      → redis.scores (redis.zadd score member z) ≡ redis.scores z ++ score ∷ []

-- What the script returns: whether the request is allowed, the number of entries, the oldest score.
abbrev pub Answer : Type 0
Answer = ℕ × (ℕ × ℕ)

-- `oldest[2] or now`
abbrev pub oldest_or : ℕ → List ℕ → ℕ
oldest_or now [] = now
oldest_or now (t ∷ ts) = t

-- REDIS_SLIDING_WINDOW_SCRIPT
unfoldable pub sliding_window : {Z : Type 0} → SortedSet Z → ℕ → ℕ → ℕ → Text → Z → Answer × Z
sliding_window redis now window limit member z =
    let kept = redis.zremrangebyscore window now z in
    let count = length (redis.scores kept) in
    let grown = redis.zadd now member kept in
    if leb limit count
    then ((0, (count, oldest_or now (redis.scores kept))), kept)
    else ((1, (count + 1, oldest_or now (redis.scores grown))), grown)

-- `_seconds_until_reset`; what is below 1 is 1, so that a difference cut off at 0 is no other case.
unfoldable pub redis_seconds_until_reset : ℕ → ℕ → ℕ → ℕ
redis_seconds_until_reset window oldest now = max 1 (ceil_div (window + oldest - now) 1000)

unfoldable pub decision_of : ℕ → ℕ → ℕ → Answer → RateLimitDecision
decision_of limit window now (allowed, (count, oldest)) =
    let reset = redis_seconds_until_reset window oldest now in
    record {
      allowed = not (allowed == 0);
      limit = limit;
      remaining = if not (allowed == 0) then limit - count else 0;
      retry_after_seconds = if not (allowed == 0) then 0 else reset;
      reset_after_seconds = reset;
    }

-- `check`, where `eval` sends the script to Redis: `raise` is `RateLimitBackendUnavailable`.
unfoldable pub redis_check :
    {Z : Type 0}
    → (ℕ → ℕ → ℕ → Text → Z → Result Text Answer × Z)
    → ℕ
    → ℕ
    → Text
    → ℕ
    → Z
    → Result Text RateLimitDecision × Z
redis_check eval limit window_seconds member now z =
    let (answered, z') = eval now (window_seconds * 1000) limit member z in
    (
      elim answered [
        | raise message ↦ raise message
        | ok answer ↦ ok (decision_of limit (window_seconds * 1000) now answer)
      ],
      z',
    )
