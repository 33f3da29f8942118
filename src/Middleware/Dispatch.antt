-- ===== src/Middleware/Dispatch.antt =====
-- backend/app/middleware/rate_limit.py: `RateLimitMiddleware`. The store's `check` and the
-- application behind the middleware, `call_next`, are parameters over their states; `lower` is
-- `str.lower` and `decimal` is `str` of an int. Of an answer that the middleware makes, the detail
-- code is kept.
pub mod Callers
pub mod Served
use doc_search_ai.Middleware.RateLimit.{RateLimitDecision}
use doc_search_ai.Core.Events.{OperationEvent, error}
use doc_search_ai.Jobs.Base.{Events, record_if_any}
use doc_search_ai.Audit.Store.{starts_with}
use doc_search_ai.Text.{Text, text, text_eq, strip, split_on}
use doc_search_ai.Common.{
  ℕ, Bool, true, false, not, ◌&&◌, ◌||◌, ◌==◌, Option, none, some, List, [], ◌∷◌, ◌++◌, null, take,
  drop, filter, Result, ok, raise, if◌then◌else◌,
}

pub record LimitedRequest : Type 0 where
  pub method : Text
  pub path : Text
  pub authorization : Option Text
  pub api_key : Option Text
  pub forwarded_for : Option Text
  pub client_host : Option Text

pub record Response : Type 0 where
  pub status_code : ℕ
  pub code : Text
  pub headers : List (Text × Text)

-- `response.headers[name] = value`
unfoldable pub set_header : Text → Text → Response → Response
set_header name value r = record r {
  headers = filter (λ (h : Text × Text). not (text_eq h.0 name)) r.headers ++ (name, value) ∷ [];
}

-- The text of a header, stripped, if anything is left of it.
unfoldable pub visible : Option Text → Option Text
visible none = none
visible (some value) = let stripped = strip value in if null stripped then none else some stripped

abbrev pub first_part : List Text → Text
first_part [] = []
first_part (s ∷ l) = s

module _ (lower : Text → Text) where
  -- The token of the header "Authorization", if it has one.
  unfoldable pub bearer_token : Option Text → Option Text
  bearer_token none = none
  bearer_token (some value) =
      let token = visible (some (drop 7 value)) in
      if starts_with (text "bearer ") (lower value) then token else none

  unfoldable pub bucket_key : LimitedRequest → Text
  bucket_key request = elim (bearer_token request.authorization) [
    | some token ↦ text "auth_token:" ++ token
    | none ↦ elim (visible request.api_key) [
      | some key ↦ text "api_key:" ++ key
      | none ↦
          elim (visible (elim request.forwarded_for [
            | none ↦ none
            | some addresses ↦ some (first_part (split_on 44 addresses))
          ])) [
            | some address ↦ text "ip:" ++ address
            | none ↦
                text "ip:" ++ elim request.client_host [ none ↦ text "unknown" | some host ↦ host ]
          ]
    ]
  ]

module _ (decimal : ℕ → Text) where
  unfoldable pub apply_headers : RateLimitDecision → Response → Response
  apply_headers d r = set_header (text "X-RateLimit-Reset") (decimal d.reset_after_seconds) (
      set_header (text "X-RateLimit-Remaining") (decimal d.remaining)
        (set_header (text "X-RateLimit-Limit") (decimal d.limit) r))

  unfoldable pub refusal : RateLimitDecision → Response
  refusal d = apply_headers d (record {
    status_code = 429;
    code = text "RATE_LIMIT_EXCEEDED";
    headers = (text "Retry-After", decimal d.retry_after_seconds) ∷ [];
  })

abbrev pub unavailable : Response
unavailable = record {
  status_code = 503;
  code = text "RATE_LIMIT_BACKEND_UNAVAILABLE";
  headers = [];
}

abbrev pub unavailable_event : Text → LimitedRequest → OperationEvent
unavailable_event message request = record {
  event_type = text "rate_limit.backend_unavailable";
  severity = error;
  source = text "rate_limit";
  message = text "Rate limit backend is unavailable: " ++ message;
  details = (text "method", request.method) ∷ (text "path", request.path) ∷ [];
}

pub record MiddlewareState (S A : Type 0) : Type 0 where
  pub store : S
  pub app : A
  pub events : Events

module _ {S A : Type 0} (lower : Text → Text) (decimal : ℕ → Text) (enabled fail_open : Bool)
    (check : Text → S → Result Text RateLimitDecision × S) (call_next : A → Response × A) where
  -- The request goes on to the application, whose response is changed.
  abbrev pub forward : (Response → Response) → MiddlewareState S A → Response × MiddlewareState S A
  forward change s = let (r, app') = call_next s.app in (change r, record s { app = app' })

  unfoldable pub on_decision :
      LimitedRequest
      → Result Text RateLimitDecision
      → MiddlewareState S A
      → Response × MiddlewareState S A
  on_decision request (raise message) s =
      let s' = record s { events = record_if_any (unavailable_event message request) s.events } in
      if fail_open
      then forward (set_header (text "X-RateLimit-Backend") (text "unavailable")) s'
      else (unavailable, s')
  on_decision request (ok d) s =
      if d.allowed then forward (apply_headers decimal d) s else (refusal decimal d, s)

  unfoldable pub dispatch : LimitedRequest → MiddlewareState S A → Response × MiddlewareState S A
  dispatch request s =
      let (answered, store') = check (bucket_key lower request) s.store in
      if not enabled || not (starts_with (text "/v1/") request.path)
      then forward (λ r. r) s
      else on_decision request answered (record s { store = store' })
