-- ===== src/Middleware/Dispatch/Served.antt =====
-- The middleware over the limiter in memory: how many requests of one caller are served, whatever
-- others ask in between.
use doc_search_ai.Middleware.Dispatch.{Response, MiddlewareState, dispatch}
use doc_search_ai.Middleware.RateLimit.{Limits, Buckets, RateLimitDecision, check}
use doc_search_ai.Text.{Text}
use doc_search_ai.Common.{ℕ, List, [], ◌∷◌, ◌++◌, true, ok, Result, Bool}
use doc_search_ai.Middleware.Dispatch.Callers.{Arrival}

-- An application that writes down what it is called for.
abbrev pub served_at : Arrival → List Arrival → Response × List Arrival
served_at a log = (record { status_code = 200; code = []; headers = [] }, log ++ a ∷ [])

-- The limiter in memory, as a store that is always reached.
abbrev pub in_memory : Limits → ℕ → Text → Buckets → Result Text RateLimitDecision × Buckets
in_memory c now key buckets = let (d, buckets') = check c now key buckets in (ok d, buckets')

module _ (lower : Text → Text) (decimal : ℕ → Text) (fail_open : Bool) (c : Limits) where
  abbrev pub Serving : Type 0
  Serving = MiddlewareState Buckets (List Arrival)

  abbrev pub serve : Arrival → Serving → Serving
  serve a s = (dispatch lower decimal true fail_open (in_memory c a.1) (served_at a) a.0 s).1

  -- One request after the other.
  unfoldable pub serve_all : List Arrival → Serving → Serving
  serve_all [] s = s
  serve_all (a ∷ l) s = serve_all l (serve a s)
