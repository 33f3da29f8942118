-- ===== src/Middleware/Dispatch/Callers.antt =====
-- Who asks, and the times at which one caller does.
use doc_search_ai.Middleware.Dispatch.{
  LimitedRequest, bucket_key, bearer_token, visible, first_part,
}
use doc_search_ai.Middleware.RateLimit.Window.{Ascending, Ascending-mono}
use doc_search_ai.Audit.Store.{starts_with}
use doc_search_ai.Text.{Text, text, text_eq, split_on, strip}
use doc_search_ai.Common.{
  ◌≡◌, refl, ℕ, List, [], ◌∷◌, ◌++◌, ◌&&◌, true, false, Bool, Bool-cases, inl, inr, if◌then◌else◌,
  ap, Option, none, some, Option-cases, map, filter, null, drop,
}

-- A request and the time at which it comes.
abbrev pub Arrival : Type 0
Arrival = LimitedRequest × ℕ

-- Who asks: the bearer of a token, else the holder of an API key, else the first forwarded address,
-- else the host. Neither the path nor the method matters.
abbrev pub caller_from : Option Text → Option Text → Option Text → Option Text → Text
caller_from (some token) key address host = text "auth_token:" ++ token
caller_from none (some key) address host = text "api_key:" ++ key
caller_from none none (some address) host = text "ip:" ++ address
caller_from none none none (some host) = text "ip:" ++ host
caller_from none none none none = text "ip:" ++ text "unknown"

abbrev pub forwarded : Option Text → Option Text
forwarded none = none
forwarded (some addresses) = some (first_part (split_on 44 addresses))

-- The text of a header without white space around it, if anything is left.
abbrev pub header_text : Option Text → Option Text
header_text none = none
header_text (some value) = if null (strip value) then none else some (strip value)

-- What follows the word "bearer", in either case.
abbrev pub token_of : (Text → Text) → Option Text → Option Text
token_of lower none = none
token_of lower (some value) =
    if starts_with (text "bearer ") (lower value) then header_text (some (drop 7 value)) else none

abbrev pub caller : (Text → Text) → LimitedRequest → Text
caller lower r =
    caller_from (token_of lower r.authorization) (header_text r.api_key)
      (header_text (forwarded r.forwarded_for)) r.client_host

module _ (lower : Text → Text) where
  visible-eq : (o : Option Text) → visible o ≡ header_text o
  unfolding visible
  visible-eq none = refl
  visible-eq (some value) = refl

  bearer_token-eq : (o : Option Text) → bearer_token lower o ≡ token_of lower o
  unfolding bearer_token
  bearer_token-eq none = refl
  bearer_token-eq (some value) =
      ap (λ o. if starts_with (text "bearer ") (lower value) then o else none)
        (visible-eq (some (drop 7 value)))

  bucket_key-parts :
      (r : LimitedRequest)
      → bucket_key lower r
        ≡ caller_from
            (bearer_token lower r.authorization)
            (visible r.api_key)
            (visible (forwarded r.forwarded_for))
            r.client_host
  unfolding bucket_key
  bucket_key-parts r = elim (Option-cases (bearer_token lower r.authorization)) [
    | inr (t, e) ↦ rw (bucket_key, e) refl
    | inl e ↦ elim (Option-cases (visible r.api_key)) [
      | inr (k, f) ↦ rw (bucket_key, e, f) refl
      | inl f ↦ elim (Option-cases (visible (forwarded r.forwarded_for))) [
        | inr (a, g) ↦ rw (bucket_key, e, f, g) refl
        | inl g ↦ elim (Option-cases r.client_host) [
          | inr (host, h) ↦ rw (bucket_key, e, f, g, h) refl
          | inl h ↦ rw (bucket_key, e, f, g, h) refl
        ]
      ]
    ]
  ]

  pub bucket_key-eq : (r : LimitedRequest) → bucket_key lower r ≡ caller lower r
  bucket_key-eq r =
      rw
        (
          ← (bearer_token-eq r.authorization),
          ← (visible-eq r.api_key),
          ← (visible-eq (forwarded r.forwarded_for)),
        )
        (bucket_key-parts r)

  -- A request under /v1/ of the caller.
  abbrev pub is_of : Text → Arrival → Bool
  is_of who a = starts_with (text "/v1/") a.0.path && text_eq (caller lower a.0) who

  -- The times of the caller's requests under /v1/.
  unfoldable pub times_of : Text → List Arrival → List ℕ
  times_of who l = map (λ (a : Arrival). a.1) (filter (is_of who) l)

  pub times_of-own :
      (who : Text) (a : Arrival) (l : List Arrival)
      → is_of who a ≡ true
      → times_of who (a ∷ l) ≡ a.1 ∷ times_of who l
  unfolding times_of filter
  times_of-own who a l e = rw (times_of, filter, e) refl

  pub times_of-other :
      (who : Text) (a : Arrival) (l : List Arrival)
      → is_of who a ≡ false
      → times_of who (a ∷ l) ≡ times_of who l
  unfolding times_of filter
  times_of-other who a l e = rw (times_of, filter, e) refl

  pub times_of-append_one :
      (who : Text) (l : List Arrival) (a : Arrival)
      → times_of who (l ++ a ∷ []) ≡ times_of who l ++ (if is_of who a then a.1 ∷ [] else [])
  unfolding times_of filter
  times_of-append_one who [] a = elim (Bool-cases (is_of who a)) [
    | inl e ↦ rw (times_of, filter, e) refl
    | inr e ↦ rw (times_of, filter, e) refl
  ]
  times_of-append_one who (b ∷ l) a = elim (Bool-cases (is_of who b)) [
    | inl e ↦ rw (times_of, filter, e) (ap (λ t. b.1 ∷ t) (times_of-append_one who l a))
    | inr e ↦ rw (times_of, filter, e) (times_of-append_one who l a)
  ]

  pub times_of-Ascending :
      (who : Text) (low : ℕ) (l : List Arrival)
      → Ascending low (map (λ (a : Arrival). a.1) l)
      → Ascending low (times_of who l)
  unfolding times_of filter
  times_of-Ascending who low [] h = tt
  times_of-Ascending who low (a ∷ l) h = elim (Bool-cases (is_of who a)) [
    | inl e ↦ rw (times_of, filter, e) (h.0, times_of-Ascending who a.1 l h.1)
    | inr e ↦
        rw (times_of, filter, e)
          (Ascending-mono low a.1 (times_of who l) h.0 (times_of-Ascending who a.1 l h.1))
  ]
