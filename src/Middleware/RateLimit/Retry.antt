-- ===== src/Middleware/RateLimit/Retry.antt =====
-- The numbers of a decision: what is left, and when to try again.
use doc_search_ai.Text.{Text, text_eq_refl, text_eq_iff}
use doc_search_ai.Middleware.RateLimit.{
  prune, check_bucket, seconds_until_reset, Limits, Bucket, window, ceil_div, check, Buckets,
}
use native.Mathlib.Nat.{div-add-mod, mod-lt}
use doc_search_ai.Common.{
  ◌≡◌, ℕ, All, length, ◌+◌, ◌<◌, ◌∷◌, ◌≤◌, Bool-cases, arith, true, ◌*◌, leb, [], length-append,
  inl, inr, if◌then◌else◌, ◌-◌, false, max, leb→le, refl, ◌≢◌,
}

prune-All : (w now : ℕ) (l : Bucket) → (P : ℕ → Type 0) → All P l → All P (prune w now l)
unfolding prune
prune-All w now [] P h = tt
prune-All w now (t ∷ ts) P h = elim (Bool-cases (leb (t + w) now)) [
  | inl e ↦ rw e (prune-All w now ts P h.1)
  | inr e ↦ rw e h
]

length-prune-le : (w now : ℕ) (l : Bucket) → length (prune w now l) ≤ length l
unfolding prune
length-prune-le w now [] = omega arith
length-prune-le w now (t ∷ ts) = ground (arith, length-prune-le w now ts)

-- A bucket never grows past the limit.
pub check_bucket-length :
    (c : Limits) (now : ℕ) (bucket : Bucket)
    → length bucket ≤ c.limit
    → length (check_bucket c now bucket).1 ≤ c.limit
unfolding check_bucket
check_bucket-length c now bucket h = ground (
  arith,
  length-prune-le (window c) now bucket,
  length-append (prune (window c) now bucket) (now ∷ []),
)

-- On every branch the decision's numbers agree with the bucket: with the places left, the bucket
-- is full; an admitted request need not wait, and a refused one must wait until the reset.
pub check_bucket_numbers :
    (c : Limits) (now : ℕ) (bucket : Bucket)
    → length bucket ≤ c.limit
    → let (d, bucket') = check_bucket c now bucket in
      (d.limit ≡ c.limit)
      × (d.remaining + length bucket' ≡ c.limit)
      × (d.retry_after_seconds ≡ (if d.allowed then 0 else d.reset_after_seconds))
unfolding check_bucket
check_bucket_numbers c now bucket h =
    let shrinks = length-prune-le (window c) now bucket in
    let grows = length-append (prune (window c) now bucket) (now ∷ []) in
    elim (Bool-cases (leb c.limit (length (prune (window c) now bucket)))) [
      | inl e ↦ rw (e, check_bucket) (refl, ground (arith, shrinks), refl)
      | inr e ↦ rw (e, check_bucket) (refl, ground (arith, shrinks, grows), refl)
    ]

prune_expired :
    (w now t : ℕ) (ts : Bucket) → t + w ≤ now → length (prune w now (t ∷ ts)) ≤ length ts
unfolding prune
prune_expired w now t ts h = ground (arith, length-prune-le w now ts)

le-ceil_div : (x u : ℕ) → 0 < u → x ≤ ceil_div x u * u
le-ceil_div x u h = grind (arith, div-add-mod (x + (u - 1)) u, mod-lt (x + (u - 1)) h)

mul_mono : (a b u : ℕ) → a ≤ b → a * u ≤ b * u
mul_mono a b u h = grind arith

-- To wait as long as told is enough for the oldest request of the bucket to leave the window.
wait_suffices :
    (c : Limits) (t now : ℕ) (ts : Bucket) (now' : ℕ)
    → 0 < c.unit
    → now + seconds_until_reset c (t ∷ ts) now * c.unit ≤ now'
    → t + window c ≤ now'
unfolding seconds_until_reset
wait_suffices c t now ts now' u h =
    let ticks = window c + t - now in
    let enough = le-ceil_div ticks c.unit u in
    let more =
      mul_mono (ceil_div ticks c.unit) (max 1 (ceil_div ticks c.unit)) c.unit (omega arith) in
    omega (arith, enough, more, h)

full_bucket :
    (c : Limits) (now now' : ℕ) (p : Bucket)
    → 0 < c.limit
    → 0 < c.unit
    → length p ≤ c.limit
    → c.limit ≤ length p
    → now + seconds_until_reset c p now * c.unit ≤ now'
    → length (prune (window c) now' p) < c.limit
full_bucket c now now' [] l u h k w = absurd (omega arith)
full_bucket c now now' (t ∷ ts) l u h k w =
    omega (arith, prune_expired (window c) now' t ts (wait_suffices c t now ts now' u w))

-- `Retry-After` is honest: a refused request that comes again after so many seconds, with no other
-- request of its key in between, is admitted.
pub retry_succeeds :
    (c : Limits) (now now' : ℕ) (bucket : Bucket)
    → 0 < c.limit
    → 0 < c.unit
    → length bucket ≤ c.limit
    → (check_bucket c now bucket).0.allowed ≡ false
    → now + (check_bucket c now bucket).0.retry_after_seconds * c.unit ≤ now'
    → (check_bucket c now' (check_bucket c now bucket).1).0.allowed ≡ true
unfolding check_bucket
retry_succeeds c now now' bucket l u h refused w =
    elim (Bool-cases (leb c.limit (length (prune (window c) now bucket)))) [
      | inl e ↦
          let p = prune (window c) now bucket in
          let room =
            full_bucket c now now' p l u (omega (arith, length-prune-le (window c) now bucket))
              (leb→le c.limit (length p) e) (rw (e, check_bucket) at w) in
          let e' : leb c.limit (length (prune (window c) now' p)) ≡ false = ground arith in
          rw (e, check_bucket) (rw (e', check_bucket) refl)
      | inr e ↦ absurd (cc (rw (e, check_bucket) at refused))
    ]

-- A check of one key leaves the buckets of all others alone.
pub check_other_key :
    (c : Limits) (now : ℕ) (key k : Text) (buckets : Buckets)
    → key ≢ k
    → (check c now key buckets).1 k ≡ buckets k
unfolding check
check_other_key c now key k buckets h = ground (arith, text_eq_iff key k)

pub check_own_key :
    (c : Limits) (now : ℕ) (key : Text) (buckets : Buckets)
    → ((check c now key buckets).0 ≡ (check_bucket c now (buckets key)).0)
      × ((check c now key buckets).1 key ≡ (check_bucket c now (buckets key)).1)
unfolding check
check_own_key c now key buckets = (refl, rw (text_eq_refl key) refl)
