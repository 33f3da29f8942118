-- ===== src/Middleware/Redis/Same.antt =====
-- The store on Redis and the limiter in memory decide alike.
use doc_search_ai.Middleware.Redis.{
  SortedSet, SortedSetLaws, Answer, oldest_or, sliding_window, redis_seconds_until_reset,
  decision_of, redis_check,
}
use doc_search_ai.Middleware.RateLimit.{Limits, window, prune, seconds_until_reset, check_bucket}
use doc_search_ai.Middleware.RateLimit.Window.{Ascending, prune-eq-recent, recent}
use doc_search_ai.Text.{Text}
use doc_search_ai.Common.{
  ◌≡◌, refl, ℕ, List, [], ◌∷◌, ◌++◌, ◌<◌, ◌≤◌, ◌+◌, All, All-filter, length, leb, ok, Result, false,
  Bool-cases, inl, inr, arith, ◌∙◌, sym, ◌*◌, leb→le,
}

-- Redis that answers.
abbrev pub answering : {Z : Type 0} → SortedSet Z → ℕ → ℕ → ℕ → Text → Z → Result Text Answer × Z
answering redis now window limit member z =
    let (answer, z') = sliding_window redis now window limit member z in (ok answer, z')

-- The limits, with times in milliseconds.
abbrev pub in_milliseconds : ℕ → ℕ → Limits
in_milliseconds limit window_seconds = record {
  limit = limit;
  window_seconds = window_seconds;
  unit = 1000;
}

reset-same :
    (limit window_seconds now : ℕ) (l : List ℕ)
    → 0 < length l
    → redis_seconds_until_reset (window_seconds * 1000) (oldest_or now l) now
      ≡ seconds_until_reset (in_milliseconds limit window_seconds) l now
unfolding redis_seconds_until_reset seconds_until_reset
reset-same limit window_seconds now [] h = absurd (omega arith)
reset-same limit window_seconds now (t ∷ ts) h = refl

length-append_one : (l : List ℕ) (n : ℕ) → length l + 1 ≡ length (l ++ n ∷ [])
length-append_one [] n = omega arith
length-append_one (t ∷ ts) n = omega (arith, length-append_one ts n)

module _ {Z : Type 0} (redis : SortedSet Z) (laws : SortedSetLaws redis) where
  -- On a set that holds the times of a bucket, in ascending order and none later than now, and for a
  -- member that is not in it, the store on Redis takes the decision of the limiter in memory, all numbers of it included, and holds the
  -- same times afterwards, if at least one request is allowed in a window.
  pub redis_check-eq-check_bucket :
      (limit window_seconds now : ℕ) (member : Text) (z : Z)
      → 0 < limit
      → redis.has_member member z ≡ false
      → Ascending 0 (redis.scores z)
      → All (λ t. t ≤ now) (redis.scores z)
      → ((redis_check (answering redis) limit window_seconds member now z).0
          ≡ ok (check_bucket (in_milliseconds limit window_seconds) now (redis.scores z)).0)
        × (redis.scores (redis_check (answering redis) limit window_seconds member now z).1
            ≡ (check_bucket (in_milliseconds limit window_seconds) now (redis.scores z)).1)
  unfolding redis_check check_bucket sliding_window decision_of
  redis_check-eq-check_bucket limit window_seconds now member z positive fresh sorted past =
      let c = in_milliseconds limit window_seconds in
      let kept = redis.zremrangebyscore (window c) now z in
      let same : prune (window c) now (redis.scores z) ≡ redis.scores kept =
        prune-eq-recent (window c) now 0 (redis.scores z) sorted
        ∙ unfold recent in sym (laws.removed (window c) now z) in
      let young : All (λ t. t ≤ now) (redis.scores kept) =
        rw (laws.removed (window c) now z) (All-filter _ _ (redis.scores z) past) in
      elim (Bool-cases (leb limit (length (redis.scores kept)))) [
        | inl e ↦
            let some_kept : 0 < length (redis.scores kept) = omega (arith, leb→le _ _ e) in
            rw (same, e, reset-same limit window_seconds now (redis.scores kept) some_kept)
              (refl, refl)
        | inr e ↦
            let grown = redis.scores kept ++ now ∷ [] in
            let some_kept : 0 < length grown =
              omega (arith, length-append_one (redis.scores kept) now) in
            rw
              (
                same,
                e,
                laws.added now member kept (laws.none_made (window c) now member z fresh) young,
                reset-same limit window_seconds now grown some_kept,
                length-append_one (redis.scores kept) now,
              )
              (refl, refl)
      ]
