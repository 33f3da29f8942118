-- ===== src/Middleware/RateLimit/Window.antt =====
-- The limiter against its specification, which keeps every admitted request forever: a request is
-- admitted if fewer than `limit` admitted requests lie within the window that ends now.
use doc_search_ai.Middleware.RateLimit.{Limits, prune, Bucket, check_bucket, window}
use mathlib.Core.Path.{ap₂}
use mathlib.Core.List.{append-nil, append_assoc}
use doc_search_ai.Common.{
  ◌≡◌, ℕ, filter, List, ltb, Bool, ◌∷◌, ◌≤◌, ◌<◌, ◌+◌, if◌then◌else◌, arith, [], length, All, refl,
  true, ◌++◌, false, Bool-cases, ◌∙◌, All-mono, inl, inr, leb, sym, ◌&&◌, All-append, subst,
}

-- The admitted times that are less than a window old.
unfoldable pub recent : ℕ → ℕ → List ℕ → List ℕ
recent window now history = filter (λ t. ltb now (t + window)) history

-- One request at a time: whether it is admitted, and the history after it.
unfoldable pub spec_check : Limits → ℕ → List ℕ → Bool × List ℕ
spec_check c now history =
    if ltb (length (recent (window c) now history)) c.limit
    then (true, history ++ now ∷ [])
    else (false, history)

-- The requests of one key at the given times, and whether each is admitted.
unfoldable pub run : Limits → List ℕ → Bucket → List Bool
run c [] bucket = []
run c (now ∷ times) bucket =
    let (decision, bucket') = check_bucket c now bucket in decision.allowed ∷ run c times bucket'

unfoldable pub spec_run : Limits → List ℕ → List ℕ → List Bool
spec_run c [] history = []
spec_run c (now ∷ times) history =
    let (allowed, history') = spec_check c now history in allowed ∷ spec_run c times history'

-- Ascending, with every element at least `low`.
abbrev pub Ascending : ℕ → List ℕ → Type 0
Ascending low [] = Unit
Ascending low (t ∷ ts) = (low ≤ t) × Ascending t ts

pub Ascending-mono : (a b : ℕ) (l : List ℕ) → a ≤ b → Ascending b l → Ascending a l
Ascending-mono a b [] h k = tt
Ascending-mono a b (t ∷ ts) h k = (omega arith, k.1)

recent_young : (w now low : ℕ) (l : List ℕ) → now < low + w → Ascending low l → recent w now l ≡ l
unfolding recent filter
recent_young w now low [] h k = refl
recent_young w now low (t ∷ ts) h k = ground (arith, recent_young w now t ts)

-- On a bucket in ascending order, popping from the left is the same as filtering.
pub prune-eq-recent :
    (w now low : ℕ) (l : List ℕ) → Ascending low l → prune w now l ≡ recent w now l
unfolding prune recent filter
prune-eq-recent w now low [] h = refl
prune-eq-recent w now low (t ∷ ts) h =
    ground (arith, prune-eq-recent w now t ts, recent_young w now t ts)

recent-recent : (w a b : ℕ) (l : List ℕ) → a ≤ b → recent w b (recent w a l) ≡ recent w b l
unfolding recent filter
recent-recent w a b [] h = refl
recent-recent w a b (t ∷ ts) h = ground (arith, recent-recent w a b ts)

-- The bucket holds what is recent in the history; all times are past.
pub record Tracks (c : Limits) (last : ℕ) (history : List ℕ) (bucket : Bucket) : Type 0 where
  pub holds : bucket ≡ recent (window c) last history
  pub ascending : Ascending 0 history
  pub past : All (λ t. t ≤ last) history

recent-Ascending : (w now low : ℕ) (l : List ℕ) → Ascending low l → Ascending low (recent w now l)
unfolding recent filter
recent-Ascending w now low [] h = tt
recent-Ascending w now low (t ∷ ts) h = elim (Bool-cases (ltb now (t + w))) [
  | inl e ↦ rw e (h.0, recent-Ascending w now t ts h.1)
  | inr e ↦ rw e (recent-Ascending w now low ts (Ascending-mono low t ts h.0 h.1))
]

recent-append_one :
    (w now : ℕ) (l : List ℕ) → 0 < w → recent w now (l ++ now ∷ []) ≡ recent w now l ++ now ∷ []
unfolding recent filter
recent-append_one w now [] h = ground arith
recent-append_one w now (t ∷ ts) h = ground (arith, recent-append_one w now ts)

Ascending-append_one :
    (low now : ℕ) (l : List ℕ)
    → Ascending low l
    → All (λ t. t ≤ now) l
    → low ≤ now
    → Ascending low (l ++ now ∷ [])
Ascending-append_one low now [] h k p = (p, tt)
Ascending-append_one low now (t ∷ ts) h k p = (h.0, Ascending-append_one t now ts h.1 k.1 k.0)

prune-Tracks :
    (c : Limits) (last now : ℕ) (history : List ℕ) (bucket : Bucket)
    → Tracks c last history bucket
    → last ≤ now
    → prune (window c) now bucket ≡ recent (window c) now history
prune-Tracks c last now history bucket k h = rw k.holds (
    prune-eq-recent (window c) now 0 (recent (window c) last history)
      (recent-Ascending _ last 0 history k.ascending)
    ∙ recent-recent (window c) last now history h)

-- One check decides as the specification does, and goes on tracking the history.
check_bucket-Tracks :
    (c : Limits) (last now : ℕ) (history : List ℕ) (bucket : Bucket)
    → 0 < window c
    → Tracks c last history bucket
    → last ≤ now
    → ((check_bucket c now bucket).0.allowed ≡ (spec_check c now history).0)
      × Tracks c now (spec_check c now history).1 (check_bucket c now bucket).1
unfolding check_bucket spec_check
check_bucket-Tracks c last now history bucket w k h =
    let pruned = prune-Tracks c last now history bucket k h in
    let past : All (λ t. t ≤ now) history = All-mono (λ t p. omega arith) history k.past in
    elim (Bool-cases (ltb (length (recent (window c) now history)) c.limit)) [
      | inl e ↦
          let e' : leb c.limit (length (recent (window c) now history)) ≡ false = ground arith in
          rw (pruned, e, e', check_bucket, spec_check)
            (
              refl,
              record {
                holds = sym (recent-append_one (window c) now history w);
                ascending = Ascending-append_one 0 now history k.ascending past (omega arith);
                past = All-append (λ t. t ≤ now) history (now ∷ []) past (omega arith, tt);
              },
            )
      | inr e ↦
          let e' : leb c.limit (length (recent (window c) now history)) ≡ true = ground arith in
          rw (pruned, e, e', check_bucket, spec_check)
            (refl, record { holds = refl; ascending = k.ascending; past = past })
    ]

-- A new bucket tracks the empty history.
Tracks-empty : (c : Limits) → Tracks c 0 [] []
unfolding recent filter
Tracks-empty c = record { holds = refl; ascending = tt; past = tt }

run-eq-spec_run_from :
    (c : Limits) (times : List ℕ) (last : ℕ) (history : List ℕ) (bucket : Bucket)
    → 0 < window c
    → Ascending last times
    → Tracks c last history bucket
    → run c times bucket ≡ spec_run c times history
unfolding run spec_run
run-eq-spec_run_from c [] last history bucket w a k = refl
run-eq-spec_run_from c (now ∷ times) last history bucket w a k =
    let (same, tracks) = check_bucket-Tracks c last now history bucket w k a.0 in
    ap₂ ◌∷◌ same (run-eq-spec_run_from c times now _ _ w a.1 tracks)

-- On requests in the order of time the limiter admits exactly what the specification admits.
pub run-eq-spec_run :
    (c : Limits) (times : List ℕ)
    → 0 < window c
    → Ascending 0 times
    → run c times [] ≡ spec_run c times []
run-eq-spec_run c times w a = run-eq-spec_run_from c times 0 [] [] w a (Tracks-empty c)

-- The times that are admitted.
unfoldable pub admitted : Limits → List ℕ → Bucket → List ℕ
admitted c [] bucket = []
admitted c (now ∷ times) bucket =
    let (decision, bucket') = check_bucket c now bucket in
    let rest = admitted c times bucket' in if decision.allowed then now ∷ rest else rest

-- How many of the times lie in the window that ends at `t`: after `t - window`, up to `t`.
unfoldable pub in_window : ℕ → ℕ → List ℕ → ℕ
in_window w t l = length (filter (λ s. leb s t && ltb t (s + w)) l)

in_window-append :
    (w t : ℕ) (l m : List ℕ) → in_window w t (l ++ m) ≡ in_window w t l + in_window w t m
unfolding in_window filter
in_window-append w t [] m = omega arith
in_window-append w t (s ∷ l) m = ground (arith, in_window-append w t l m)

in_window-le-recent :
    (w t now : ℕ) (l : List ℕ) → now ≤ t → in_window w t l ≤ length (recent w now l)
unfolding in_window recent filter
in_window-le-recent w t now [] h = omega arith
in_window-le-recent w t now (s ∷ l) h = ground (arith, in_window-le-recent w t now l)

-- No window holds more than `limit` of the times.
abbrev pub Bounded : Limits → List ℕ → Type 0
Bounded c l = (t : ℕ) → in_window (window c) t l ≤ c.limit

in_window-one : (w t now : ℕ) → in_window w t (now ∷ []) ≤ (if leb now t then 1 else 0)
unfolding in_window filter
in_window-one w t now = ground arith

spec_check-Bounded :
    (c : Limits) (now : ℕ) (history : List ℕ)
    → Bounded c history
    → Bounded c (spec_check c now history).1
unfolding spec_check
spec_check-Bounded c now history b t = ground (
  arith,
  b t,
  in_window-append (window c) t history (now ∷ []),
  in_window-one (window c) t now,
  in_window-le-recent (window c) t now history,
)

empty-Bounded : (c : Limits) → Bounded c []
unfolding in_window filter
empty-Bounded c t = omega arith

history_step :
    (c : Limits) (now : ℕ) (history : List ℕ) (allowed : Bool) (rest : List ℕ)
    → allowed ≡ (spec_check c now history).0
    → (spec_check c now history).1 ++ rest ≡ history ++ (if allowed then now ∷ rest else rest)
unfolding spec_check
history_step c now history allowed rest same =
    elim (Bool-cases (ltb (length (recent (window c) now history)) c.limit)) [
      | inl e ↦ rw (same, e, spec_check) (append_assoc history (now ∷ []) rest)
      | inr e ↦ rw (same, e, spec_check) refl
    ]

admitted-Bounded_from :
    (c : Limits) (times : List ℕ) (last : ℕ) (history : List ℕ) (bucket : Bucket)
    → 0 < window c
    → Ascending last times
    → Tracks c last history bucket
    → Bounded c history
    → Bounded c (history ++ admitted c times bucket)
unfolding admitted
admitted-Bounded_from c [] last history bucket w a k b = rw append-nil b
admitted-Bounded_from c (now ∷ times) last history bucket w a k b =
    let (same, tracks) = check_bucket-Tracks c last now history bucket w k a.0 in
    let rest = admitted c times (check_bucket c now bucket).1 in
    let bounded =
      admitted-Bounded_from c times now _ _ w a.1 tracks (spec_check-Bounded c now history b) in
    subst (Bounded c) (history_step c now history (check_bucket c now bucket).0.allowed rest same)
      bounded

-- The limiter keeps its promise: of requests in the order of time, whatever window of the given
-- length is looked at, at most `limit` of those that it admitted lie in it.
pub admitted-Bounded :
    (c : Limits) (times : List ℕ) (t : ℕ)
    → 0 < window c
    → Ascending 0 times
    → in_window (window c) t (admitted c times []) ≤ c.limit
admitted-Bounded c times t w a =
    admitted-Bounded_from c times 0 [] [] w a (Tracks-empty c) (empty-Bounded c) t
