-- ===== src/Examples/Limits.antt =====
-- A limiter of two requests in ten ticks, and an operator's view of two events.
use doc_search_ai.Audit.Store.{starts_with}
use doc_search_ai.Middleware.RateLimit.Retry.{retry_succeeds}
use doc_search_ai.Core.Events.{EventStore, OperationEvent, info}
use doc_search_ai.Middleware.Dispatch.Served.{serve_all}
use doc_search_ai.Middleware.Dispatch.Callers.{times_of, Arrival}
use doc_search_ai.Middleware.Dispatch.{
  LimitedRequest, dispatch, on_decision, bucket_key, bearer_token, visible,
}
use doc_search_ai.Middleware.Redis.{SortedSet, SortedSetLaws, redis_check}
use doc_search_ai.Middleware.Redis.Same.{redis_check-eq-check_bucket, answering, in_milliseconds}
use doc_search_ai.Text.{Text, text, text_eq, strip, lstrip, rstrip, is_space}
use doc_search_ai.Middleware.RateLimit.Window.{run, spec_run, run-eq-spec_run, Ascending}
use doc_search_ai.Common.{
  Bool, Bool-cases, inl, inr, ap, ◌∙◌, map, not, any, List, ℕ, [], ◌∷◌, ◌+◌, ◌≡◌, false, ◌*◌, true,
  ◌≤◌, refl, arith, none, filter, ok, some, ltb, ◌++◌,
}
use doc_search_ai.Middleware.RateLimit.{
  Limits, check, check_bucket, window, prune, seconds_until_reset,
}

abbrev two_in_ten : Limits
two_in_ten = record { limit = 2; window_seconds = 10; unit = 1 }

abbrev times : List ℕ
times = 0 ∷ 1 ∷ 2 ∷ 11 ∷ []

times-Ascending : Ascending 0 times
times-Ascending = (omega arith, (omega arith, (omega arith, (omega arith, tt))))

abbrev search_request : LimitedRequest
search_request = record {
  method = text "POST";
  path = text "/v1/search";
  authorization = none;
  api_key = some (text "k");
  forwarded_for = none;
  client_host = none;
}

-- The holder of the key "k" asks on two paths; another caller comes in between.
abbrev arrivals : List Arrival
arrivals =
    (search_request, 0)
    ∷ (record search_request { api_key = some (text "l") }, 1)
    ∷ (record search_request { path = text "/v1/chat" }, 2)
    ∷ (search_request, 11)
    ∷ []

-- In this run the holder of the key is served at these times.
served_times :
    times_of
      (λ s. s)
      (text "api_key:k")
      (serve_all
        (λ s. s)
        (λ n. n ∷ [])
        true
        two_in_ten
        arrivals
        (record { store = λ key. []; app = []; events = none })).app
    ≡ 0 ∷ 2 ∷ 11 ∷ []
unfolding times_of serve_all dispatch on_decision check check_bucket prune starts_with text_eq
    filter bucket_key bearer_token visible strip lstrip rstrip is_space
served_times = refl

-- A sorted set of members with their scores, to which scores are added in ascending order only. A
-- member that is there gets the new score.
abbrev Entries : Type 0
Entries = List (Text × ℕ)

abbrev entries_set : SortedSet Entries
entries_set = record {
  scores = λ z. map (λ (e : Text × ℕ). e.1) z;
  zremrangebyscore = λ window now z. filter (λ (e : Text × ℕ). ltb now (e.1 + window)) z;
  zadd = λ score member z.
      filter (λ (e : Text × ℕ). not (text_eq e.0 member)) z ++ (member, score) ∷ [];
  has_member = λ member z. any (λ (e : Text × ℕ). text_eq e.0 member) z;
}

scores-filter :
    (p : ℕ → Bool) (z : Entries)
    → map (λ (e : Text × ℕ). e.1) (filter (λ (e : Text × ℕ). p e.1) z)
      ≡ filter p (map (λ (e : Text × ℕ). e.1) z)
unfolding filter
scores-filter p [] = refl
scores-filter p ((m, t) ∷ z) = elim (Bool-cases (p t)) [
  | inl e ↦ rw (filter, e) (ap (λ l. t ∷ l) (scores-filter p z))
  | inr e ↦ rw (filter, e) (scores-filter p z)
]

any-filter :
    (p : Text × ℕ → Bool) (member : Text) (z : Entries)
    → any (λ (e : Text × ℕ). text_eq e.0 member) z ≡ false
    → any (λ (e : Text × ℕ). text_eq e.0 member) (filter p z) ≡ false
unfolding any filter
any-filter p member [] h = refl
any-filter p member (e ∷ z) h = ground (arith, any-filter p member z)

filter-absent :
    (member : Text) (z : Entries)
    → any (λ (e : Text × ℕ). text_eq e.0 member) z ≡ false
    → filter (λ (e : Text × ℕ). not (text_eq e.0 member)) z ≡ z
unfolding any filter
filter-absent member [] h = refl
filter-absent member (e ∷ z) h = ground (arith, filter-absent member z)

scores-append :
    (z : Entries) (member : Text) (score : ℕ)
    → map (λ (e : Text × ℕ). e.1) (z ++ (member, score) ∷ [])
      ≡ map (λ (e : Text × ℕ). e.1) z ++ score ∷ []
scores-append [] member score = refl
scores-append (e ∷ z) member score = ap (λ l. e.1 ∷ l) (scores-append z member score)

entries_set-SortedSetLaws : SortedSetLaws entries_set
entries_set-SortedSetLaws = record {
  removed = λ window now z. scores-filter (λ t. ltb now (t + window)) z;
  none_made = λ window now member z fresh. any-filter _ member z fresh;
  added = λ score member z fresh highest.
      ap (λ l. map (λ (e : Text × ℕ). e.1) (l ++ (member, score) ∷ []))
        (filter-absent member z fresh)
      ∙ scores-append z member score;
}

abbrev two_entries : Entries
two_entries = (text "a", 400) ∷ (text "b", 900) ∷ []

redis_check-eq-check_bucket_example :
    ((redis_check (answering entries_set) 2 1 (text "m") 1500 two_entries).0
      ≡ ok (check_bucket (in_milliseconds 2 1) 1500 (400 ∷ 900 ∷ [])).0)
    × (map
          (λ (e : Text × ℕ). e.1)
          (redis_check (answering entries_set) 2 1 (text "m") 1500 two_entries).1
        ≡ (check_bucket (in_milliseconds 2 1) 1500 (400 ∷ 900 ∷ [])).1)
unfolding any text_eq
redis_check-eq-check_bucket_example =
    redis_check-eq-check_bucket entries_set entries_set-SortedSetLaws 2 1 1500 (text "m")
      two_entries (omega arith) refl (omega arith, (omega arith, tt))
      (omega arith, (omega arith, tt))

run-eq-spec_run_example : run two_in_ten times [] ≡ spec_run two_in_ten times []
run-eq-spec_run_example = run-eq-spec_run two_in_ten times (omega arith) times-Ascending

full_refuses : (check_bucket two_in_ten 5 (0 ∷ 1 ∷ [])).0.allowed ≡ false
unfolding check_bucket prune
full_refuses = refl

full_waits : 5 + (check_bucket two_in_ten 5 (0 ∷ 1 ∷ [])).0.retry_after_seconds * 1 ≤ 10
unfolding check_bucket prune seconds_until_reset
full_waits = omega arith

retry_succeeds_example :
    (check_bucket two_in_ten 10 (check_bucket two_in_ten 5 (0 ∷ 1 ∷ [])).1).0.allowed ≡ true
retry_succeeds_example =
    retry_succeeds two_in_ten 5 10 (0 ∷ 1 ∷ []) (omega arith) (omega arith) (omega arith)
      full_refuses full_waits

abbrev event : Text → OperationEvent
event message = record {
  event_type = text "t";
  severity = info;
  source = text "s";
  message = message;
  details = [];
}

abbrev two_events : EventStore
two_events = record { max_events = 2; events = event (text "a") ∷ event (text "b") ∷ [] }
