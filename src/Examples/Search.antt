-- ===== src/Examples/Search.antt =====
-- A member of one workspace searches a store that holds two.
use doc_search_ai.Retrieval.Store.{delete_document}
use doc_search_ai.Retrieval.Filters.{Payload, satisfies, build_qdrant_filter}
use doc_search_ai.Search.Route.Access.{Found, shown, search_documents_forbidden, search_isolated}
use doc_search_ai.Retrieval.Store.{RetrievedChunk, search_vectors, list_chunks}
use doc_search_ai.Retrieval.Retriever.{retrieve, retrieve_hybrid, embed_query, rank}
use doc_search_ai.Examples.Client.{
  payload, stored, memory_client, one_vector, whole_numbers, member_of_w1, ascii_letter,
  hybrid_config, memory_client-ClientLaws,
}
use doc_search_ai.Text.{contains, text, text_eq, strip, is_space}
use doc_search_ai.Documents.Security.{
  validate_document_security_levels, allowed_document_security_levels,
  filter_document_security_levels_for_role, validate_document_security_level,
}
use doc_search_ai.Common.{
  List, ℕ, some, ◌≡◌, none, ◌∷◌, map, filter, [], ok, All, refl, raise, length, ◌≤◌, sorted, all,
  any,
}
use doc_search_ai.Search.Route.{SearchRequest, SearchResponse, search_documents, security_forbidden}

abbrev request : SearchRequest
request = record { query = text "hello"; document_ids = none; security_levels = none; limit = 5 }

abbrev response : SearchResponse ℕ
response = record {
  query = text "hello";
  total = 1;
  results =
      record {
        document_id = text "a";
        filename = text "a";
        parser = text "text";
        security_level = text "general";
        chunk_index = 0;
        score = 6;
        snippet = text "hello";
      }
      ∷ [];
}

member_searches :
    search_documents
      (retrieve memory_client one_vector whole_numbers
        (λ s. s)
        ascii_letter
        hybrid_config
        (text "hybrid")
        stored)
      member_of_w1
      request
    ≡ ok response
unfolding search_documents retrieve filter_document_security_levels_for_role
    validate_document_security_levels text_eq retrieve_hybrid embed_query search_vectors list_chunks
    rank sorted filter satisfies all build_qdrant_filter allowed_document_security_levels any
    contains
member_searches = refl

search_isolated_example :
    (chunks : List (RetrievedChunk ℕ)) × (response.results ≡ map shown chunks)
    × All
        (Found
          (retrieve memory_client one_vector whole_numbers
            (λ s. s)
            ascii_letter
            hybrid_config
            (text "hybrid")
            stored)
          member_of_w1
          (text "hello")
          none)
        chunks
    × (response.total ≡ length response.results)
    × (response.total ≤ request.limit)
search_isolated_example =
    search_isolated memory_client memory_client-ClientLaws one_vector whole_numbers (λ s. s)
      ascii_letter hybrid_config (text "hybrid") stored member_of_w1 request response
      member_searches

abbrev forbidden_request : SearchRequest
forbidden_request = record request { security_levels = some (text "restricted" ∷ []) }

restricted_is_known :
    validate_document_security_levels (some (text "restricted" ∷ []))
    ≡ ok (some (text "restricted" ∷ []))
unfolding validate_document_security_levels validate_document_security_level contains text_eq strip
    is_space
restricted_is_known = refl

search_documents_forbidden_example :
    search_documents {F = ℕ} (λ q f n. ok []) member_of_w1 forbidden_request
    ≡ raise security_forbidden
unfolding contains text_eq allowed_document_security_levels
search_documents_forbidden_example =
    search_documents_forbidden {F = ℕ} (λ q f n. ok []) member_of_w1 forbidden_request
      (text "restricted" ∷ []) (text "restricted") restricted_is_known refl refl

abbrev without_a : List Payload
without_a =
    payload (text "w1") (text "b") (text "restricted")
    ∷ payload (text "w2") (text "c") (text "general")
    ∷ []

deletes_a : delete_document memory_client stored (text "w1") (text "a") ≡ ok without_a
unfolding delete_document filter satisfies all build_qdrant_filter text_eq any
deletes_a = refl
