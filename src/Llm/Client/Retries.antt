-- ===== src/Llm/Client/Retries.antt =====
-- The attempts of one request. The world here is the list of what the server will answer.
use doc_search_ai.Text.{Text}
use doc_search_ai.Llm.Client.{
  Outcome, post_loop, generate, http_error, response, may_retry, settle, should_retry_status,
  read_body,
}
use doc_search_ai.Chat.Service.{LlmResponse}
use doc_search_ai.Errors.{Raises, llm_provider}
use doc_search_ai.Common.{
  List, find, ◌∷◌, not, [], ◌≡◌, suc, length, none, false, true, Bool-cases, ◌++◌, some, refl, inl,
  ◌+◌, inr, ltb, arith, Bool, ◌==◌, ◌||◌, leb, if◌then◌else◌, raise,
}

abbrev pub serve : List Outcome → Outcome × List Outcome
serve [] = (http_error [], [])
serve (o ∷ os) = (o, os)

abbrev pub last : Outcome → List Outcome → Outcome
last o [] = o
last o (p ∷ os) = last p os

-- What is tried again: no answer, too many requests, or an error of the server.
abbrev pub tried_again : Outcome → Bool
tried_again (http_error message) = true
tried_again (response status_code message content) = status_code == 429 || leb 500 status_code

-- What the caller gets for an outcome: an error of the provider, or what the body says.
abbrev pub result_of : Text → Outcome → Raises LlmResponse
result_of default (http_error message) = raise (llm_provider message)
result_of default (response status_code message content) =
    if leb 400 status_code then raise (llm_provider message) else read_body default content

may_retry-eq : (o : Outcome) → may_retry o ≡ tried_again o
unfolding may_retry should_retry_status
may_retry-eq (http_error message) = refl
may_retry-eq (response status_code message content) = ground arith

settle-eq : (default : Text) (o : Outcome) → settle default o ≡ result_of default o
unfolding settle
settle-eq default (http_error message) = refl
settle-eq default (response status_code message content) = refl

-- The first of the outcomes that is not tried again, or the last one if there is none.
unfoldable pub decisive : Outcome → List Outcome → Outcome
decisive o os = elim (find (λ p. not (tried_again p)) (o ∷ os)) [ none ↦ last o os | some p ↦ p ]

decisive-stop : (o : Outcome) (os : List Outcome) → tried_again o ≡ false → decisive o os ≡ o
unfolding decisive find
decisive-stop o os e = rw (decisive, find, e) refl

decisive-next :
    (o p : Outcome) (os : List Outcome) → tried_again o ≡ true → decisive o (p ∷ os) ≡ decisive p os
unfolding decisive find
decisive-next o p os e = rw (decisive, find, e) refl

decisive_one : (o : Outcome) → decisive o [] ≡ o
unfolding decisive find
decisive_one o = elim (Bool-cases (tried_again o)) [
  | inl e ↦ rw (decisive, find, e) refl
  | inr e ↦ rw (decisive, find, e) refl
]

post_loop-serve :
    (default : Text) (o : Outcome) (os more : List Outcome)
    → let ran = post_loop default serve (suc (length os)) (o ∷ os ++ more) in
      (ran.0 ≡ result_of default (decisive o os)) × ((left : List Outcome) × (ran.1 ≡ left ++ more))
unfolding post_loop
post_loop-serve default o [] more = elim (Bool-cases (tried_again o)) [
  | inl e ↦
      rw (post_loop, may_retry-eq o, e, settle-eq default o, decisive_one o) (refl, ([], refl))
  | inr e ↦
      rw (post_loop, may_retry-eq o, e, settle-eq default o, decisive_one o) (refl, ([], refl))
]
post_loop-serve default o (p ∷ os) more = elim (Bool-cases (tried_again o)) [
  | inl e ↦
      let more_left : ltb 0 (suc (length os)) ≡ true = ground arith in
      rw (post_loop, may_retry-eq o, e, more_left, decisive-next o p os e)
        (post_loop-serve default p os more)
  | inr e ↦
      rw (post_loop, may_retry-eq o, e, settle-eq default o, decisive-stop o (p ∷ os) e)
        (refl, (p ∷ os, refl))
]

-- A server answers `o`, then `os`, then `more`, and the profile allows as many retries as `os` has
-- outcomes. No answer, status 429 and statuses from 500 on are tried again. The result is that of
-- the first outcome that is not (a success, another client error, a body that cannot be read), or of
-- the last attempt: an error of the provider for no answer and for statuses from 400 on, and what
-- the body says otherwise. Nothing of `more` is asked for.
pub generate-decisive :
    (default : Text) (o : Outcome) (os more : List Outcome)
    → let ran = generate default (length os) serve (o ∷ os ++ more) in
      (ran.0 ≡ result_of default (decisive o os)) × ((left : List Outcome) × (ran.1 ≡ left ++ more))
unfolding generate
generate-decisive default o os more =
    let one_more : length os + 1 ≡ suc (length os) = omega arith in
    rw one_more (post_loop-serve default o os more)
