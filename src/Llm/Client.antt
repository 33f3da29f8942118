-- ===== src/Llm/Client.antt =====
-- backend/app/llm/vllm_client.py: `VLLMClient`. The POST is a parameter over the outside world `W`;
-- the pause between two attempts and the text of error messages are left out.
pub mod Retries
use doc_search_ai.Chat.Service.{ChatUsage, LlmResponse}
use doc_search_ai.Errors.{Raises, llm_provider, other}
use doc_search_ai.Text.{Text, text}
use doc_search_ai.Common.{
  ◌∷◌, [], Option, ℕ, Bool, List, ◌==◌, true, ◌||◌, leb, raise, if◌then◌else◌, ◌&&◌, ◌+◌, some, suc,
  ltb, zero, ok, none,
}

-- `choices[0]`: no object, or an object with the content of its message, if the message is an
-- object and the content a text, and the reason it finished.
pub data Choice : Type 0 where
  not_dict : Choice
  choice : Option (Option Text) → Option Text → Choice

-- A body that is an object: `choices` if it is a list, `model` if it counts as true, and the
-- numbers of `usage`.
pub record ResponseBody : Type 0 where
  pub choices : Option (List Choice)
  pub model : Option Text
  pub usage : ChatUsage

pub data JsonBody : Type 0 where
  not_json not_object : JsonBody
  object : ResponseBody → JsonBody

-- What one POST gives.
pub data Outcome : Type 0 where
  http_error : Text → Outcome
  response : ℕ → Text → JsonBody → Outcome

abbrev pub provider_error : Text → Raises LlmResponse
provider_error message = raise (llm_provider message)

-- `_parse_response` from the choices on.
unfoldable pub parse_choices : Text → ResponseBody → Option (List Choice) → Raises LlmResponse
parse_choices default body none = provider_error (text "vLLM response did not include choices")
parse_choices default body (some []) = provider_error (text "vLLM response did not include choices")
parse_choices default body (some (not_dict ∷ _)) =
    provider_error (text "vLLM response choices[0] was invalid")
parse_choices default body (some (choice none _ ∷ _)) =
    provider_error (text "vLLM response choices[0].message was invalid")
parse_choices default body (some (choice (some none) _ ∷ _)) =
    provider_error (text "vLLM response choices[0].message.content was invalid")
parse_choices default body (some (choice (some (some [])) _ ∷ _)) =
    provider_error (text "vLLM response choices[0].message.content was invalid")
parse_choices default body (some (choice (some (some (c ∷ s))) finish_reason ∷ _)) = ok (record {
  content = c ∷ s;
  model = elim body.model [ none ↦ default | some m ↦ m ];
  finish_reason = finish_reason;
  usage = body.usage;
})

-- `response.json()` and `_parse_response`. Of a body that is no object, `get` raises an
-- AttributeError.
unfoldable pub read_body : Text → JsonBody → Raises LlmResponse
read_body default not_json = provider_error (text "vLLM response was not valid JSON")
read_body default not_object = raise (other (text "AttributeError"))
read_body default (object body) = parse_choices default body body.choices

unfoldable pub should_retry_status : ℕ → Bool
should_retry_status status_code = status_code == 429 || leb 500 status_code

-- `generate` with the answer to one POST, when it is not tried again.
unfoldable pub settle : Text → Outcome → Raises LlmResponse
settle default (http_error message) = provider_error message
settle default (response status_code message content) =
    let read = read_body default content in
    if leb 400 status_code then provider_error message else read

-- An outcome after which the loop tries again, if attempts are left.
unfoldable pub may_retry : Outcome → Bool
may_retry (http_error message) = true
may_retry (response status_code message content) =
    leb 400 status_code && should_retry_status status_code

-- The loop of `_post_with_retry` with as many attempts left.
unfoldable pub post_loop : {W : Type 0} → Text → (W → Outcome × W) → ℕ → W → Raises LlmResponse × W
post_loop default post zero w = (provider_error (text "vLLM request failed"), w)
post_loop default post (suc left) w =
    let answered = post w in
    let again = post_loop default post left answered.1 in
    if may_retry answered.0 && ltb 0 left then again else (settle default answered.0, answered.1)

-- `generate`; `default` is the model of the profile.
unfoldable pub generate : {W : Type 0} → Text → ℕ → (W → Outcome × W) → W → Raises LlmResponse × W
generate default max_retries post w = post_loop default post (max_retries + 1) w
