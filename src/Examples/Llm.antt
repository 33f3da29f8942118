-- ===== src/Examples/Llm.antt =====
-- A server that is busy, then answers.
use doc_search_ai.Llm.Client.Retries.{serve, result_of, decisive, generate-decisive}
use doc_search_ai.Common.{[], ◌∷◌, some, ◌++◌, ◌≡◌, none, List}
use doc_search_ai.Text.{text}
use doc_search_ai.Llm.Client.{Outcome, generate, response, not_json, object, choice}

abbrev busy : Outcome
busy = response 503 (text "busy") not_json

abbrev fine : Outcome
fine = response 200 [] (
    object (record {
      choices = some (choice (some (some (text "hi"))) none ∷ []);
      model = none;
      usage = record { prompt_tokens = none; completion_tokens = none; total_tokens = none };
    }))

generate-decisive_example :
    ((generate (text "m") 1 serve (busy ∷ fine ∷ [] ++ busy ∷ [])).0
      ≡ result_of (text "m") (decisive busy (fine ∷ [])))
    × ((left : List Outcome) × ((generate (text "m") 1 serve (busy ∷ fine ∷ [] ++ busy ∷ [])).1
          ≡ left ++ busy ∷ []))
generate-decisive_example = generate-decisive (text "m") busy (fine ∷ []) (busy ∷ [])
