-- ===== src/Examples/Chat.antt =====
-- A member asks, and the model cites one chunk, once in range and once out of range.
use doc_search_ai.Retrieval.Filters.{satisfies, build_qdrant_filter}
use doc_search_ai.Documents.Security.{
  filter_document_security_levels_for_role, validate_document_security_levels,
  allowed_document_security_levels,
}
use doc_search_ai.Chat.Route.Isolation.{chat_isolated}
use doc_search_ai.Search.Route.Access.{Found}
use doc_search_ai.Chat.Answering.Grounding.{Cites}
use doc_search_ai.Chat.Answering.{
  answer, answer_from_chunks, answer_from_reranked, answer_from_llm, answer_from_supported,
  answer_with_ids, record_audit_event, respond,
}
use doc_search_ai.Examples.Client.{
  memory_client, member_of_w1, payload, one_vector, whole_numbers, ascii_letter, hybrid_config,
  stored, memory_client-ClientLaws,
}
use doc_search_ai.Chat.Citations.Bounds.{InRange, DistinctIds, extract_citation_ids-InRange}
use doc_search_ai.Retrieval.Retriever.{retrieve, retrieve_dense, embed_query}
use doc_search_ai.Text.{text, Text, text_eq, contains, is_space, split_ws, join}
use doc_search_ai.Retrieval.Store.{RetrievedChunk, to_chunk, search_vectors}
use doc_search_ai.Chat.Citations.{extract_citation_ids, collect_ids, find_matches, to_int, value_of}
use doc_search_ai.Chat.Answering.Audit.{Audited, answer-Audited}
use doc_search_ai.Chat.Route.{answer_question, answer_with_levels}
use doc_search_ai.Search.Route.{Retriever}
use doc_search_ai.Chat.Rerank.{
  RerankRequest, bge_rerank, HttpOutcome, get_reranker, RerankedChunk, dict, int_index,
  bge_rerank-All, read_outcome, parse_items, chunk_at, response, read_body, object,
}
use doc_search_ai.Common.{
  ℕ, ◌≡◌, All, List, some, ok, Option, Bool, none, if◌then◌else◌, ◌+◌, ◌∷◌, leb, [], length, refl,
  ◌&&◌, ◌⊎◌, ◌≤◌, ◌-◌, ◌<◌, true, any, filter, all,
}
use doc_search_ai.Chat.Service.{
  ChatRequest, ChatConfig, ChatUsage, LlmClient, ChatResponse, no_answer_message, build_citations,
  audit_event, build_snippet, chunk_numbered, filter_supported_chunks, shorten,
  build_answer_preview,
}

abbrev request : ChatRequest
request = record {
  question = text "hello";
  document_ids = none;
  security_levels = none;
  top_k = none;
}

abbrev config : ChatConfig ℕ
config = record { retrieval_limit = 4; rerank_top_k = 2; min_relevance_score = 3 }

abbrev usage : ChatUsage
usage = record { prompt_tokens = some 7; completion_tokens = none; total_tokens = none }

abbrev model_says : LlmClient
model_says system user = ok (record {
  content = text "hi [1][9][1]";
  model = text "m";
  finish_reason = none;
  usage = usage;
})

abbrev ascii_digit : ℕ → Option ℕ
ascii_digit c = if leb 48 c && leb c 57 then some (c - 48) else none

abbrev one_digit : ℕ → Text
one_digit n = (48 + n) ∷ []

abbrev no_service : RerankRequest ℕ → HttpOutcome ℕ
no_service _ = response 200 [] (object (some (dict (int_index 0) (some 9) ∷ [])))

abbrev answered : ChatResponse ℕ
answered = record {
  answer = text "hi [1][9][1]";
  model = text "m";
  citations =
      record {
        citation_id = 1;
        document_id = text "a";
        filename = text "a";
        security_level = text "general";
        chunk_index = 0;
        score = 5;
        rerank_score = 9;
        snippet = text "hello";
      }
      ∷ [];
  usage = usage;
  retrieved_chunk_count = 1;
}

abbrev dense : Retriever ℕ
dense =
    retrieve memory_client one_vector whole_numbers (λ s. s) ascii_letter hybrid_config
      (text "dense") stored

abbrev at_least : ℕ → ℕ → Bool
at_least a b = leb b a

member_asks :
    answer_question
      (get_reranker no_service (text "bge"))
      model_says
      at_least
      ascii_digit
      one_digit
      config
      dense
      member_of_w1
      request
      []
    ≡ (
      ok answered,
      audit_event member_of_w1
            (record request { security_levels = some (text "general" ∷ text "internal" ∷ []) })
            answered
            4
            2
          ∷ [],
    )
unfolding answer_question answer_with_levels filter_document_security_levels_for_role
    validate_document_security_levels text_eq answer answer_from_chunks retrieve retrieve_dense
    embed_query search_vectors filter satisfies all build_qdrant_filter
    allowed_document_security_levels any answer_from_reranked answer_from_llm answer_from_supported
    answer_with_ids record_audit_event respond collect_ids extract_citation_ids find_matches to_int
    value_of build_citations build_snippet chunk_numbered filter_supported_chunks shorten
    get_reranker bge_rerank read_outcome read_body parse_items chunk_at contains is_space split_ws
    join build_answer_preview
member_asks = refl

chat_isolated_example :
    ((answered.answer ≡ no_answer_message) × (answered.citations ≡ []))
    ⊎ ((0 < length answered.citations)
        × All
            (Cites (λ item.
              Found dense member_of_w1 request.question request.document_ids item.chunk
              × (at_least item.rerank_score 3 ≡ true)))
            answered.citations)
chat_isolated_example =
    chat_isolated memory_client memory_client-ClientLaws one_vector whole_numbers (λ s. s)
      ascii_letter hybrid_config (text "dense") stored no_service (text "bge") model_says at_least
      ascii_digit one_digit config member_of_w1 request []
      (audit_event member_of_w1
          (record request { security_levels = some (text "general" ∷ text "internal" ∷ []) })
          answered 4 2
        ∷ [])
      answered member_asks

answer-Audited_example :
    Audited
      (get_reranker no_service (text "bge"))
      model_says
      at_least
      ascii_digit
      one_digit
      config
      member_of_w1
      request
      []
      (answer
        (get_reranker no_service (text "bge"))
        model_says
        at_least
        ascii_digit
        one_digit
        config
        member_of_w1
        request
        dense
        [])
answer-Audited_example =
    answer-Audited (get_reranker no_service (text "bge")) model_says at_least ascii_digit one_digit
      config member_of_w1 request dense []

cited : extract_citation_ids ascii_digit (text "hi [1][9][1]") 1 ≡ ok (1 ∷ [])
unfolding extract_citation_ids collect_ids find_matches to_int value_of any
cited = refl

extract_citation_ids-InRange_example : All (InRange 1) (1 ∷ []) × DistinctIds (1 ∷ [])
extract_citation_ids-InRange_example =
    extract_citation_ids-InRange ascii_digit (text "hi [1][9][1]") 1 (1 ∷ []) cited

abbrev one_chunk : RetrievedChunk ℕ
one_chunk = to_chunk (payload (text "w1") (text "a") (text "general")) 5

abbrev reranked : List (RerankedChunk ℕ)
reranked = record { chunk = one_chunk; rerank_score = 9 } ∷ []

abbrev rerank_request : RerankRequest ℕ
rerank_request = record { query = text "hello"; chunks = one_chunk ∷ []; top_k = 2 }

service_reranks : bge_rerank no_service rerank_request ≡ ok reranked
unfolding bge_rerank read_outcome read_body parse_items chunk_at any
service_reranks = refl

bge_rerank-All_example :
    All (λ item. item.chunk.workspace_id ≡ text "w1") reranked × (length reranked ≤ 2)
bge_rerank-All_example =
    bge_rerank-All no_service (λ c. c.workspace_id ≡ text "w1") rerank_request reranked (refl, tt)
      service_reranks
