-- ===== src/Chat/Answering.antt =====
-- backend/app/chat/service.py: `ChatService.answer`, `_no_answer` and `_record_audit_event`, with
-- the early returns of `answer` as functions of their own. The audit log is state.
pub mod Audit
pub mod Grounding
pub mod Answers
use doc_search_ai.Chat.Citations.{extract_citation_ids}
use doc_search_ai.Retrieval.Store.{RetrievedChunk}
use doc_search_ai.Search.Route.{Retriever}
use doc_search_ai.Errors.{Raises}
use doc_search_ai.Auth.Models.{WorkspaceContext}
use doc_search_ai.Text.{Text}
use doc_search_ai.Common.{Bool, ℕ, Option, max, List, ◌++◌, raise, ◌∷◌, ok, [], length, map}
use doc_search_ai.Chat.Service.{
  LlmClient, ChatConfig, ChatRequest, nonzero_or, ChatResponse, ChatUsage, LlmResponse, AuditLog,
  ChatCitation, no_answer_message, no_usage, audit_event, no_answer_model, system_prompt,
  filter_supported_chunks, build_citations, build_user_prompt,
}
use doc_search_ai.Chat.Rerank.{Reranker, RerankedChunk}

module _ {F : Type 0} (rerank : Reranker F) (llm : LlmClient) (at_least : F → F → Bool)
    (digit : ℕ → Option ℕ) (decimal : ℕ → Text) (config : ChatConfig F) (context : WorkspaceContext)
    (request : ChatRequest) where
  abbrev pub final_top_k : ℕ
  final_top_k = nonzero_or request.top_k config.rerank_top_k

  abbrev pub final_retrieval_limit : ℕ
  final_retrieval_limit = max config.retrieval_limit final_top_k

  unfoldable pub record_audit_event : ChatResponse F → AuditLog F → AuditLog F
  record_audit_event response log =
      log ++ audit_event context request response final_retrieval_limit final_top_k ∷ []

  unfoldable pub no_answer : ℕ → ChatUsage → AuditLog F → Raises (ChatResponse F) × AuditLog F
  no_answer retrieved_chunk_count usage log =
      let response : ChatResponse F = record {
        answer = no_answer_message;
        model = no_answer_model;
        citations = [];
        usage = usage;
        retrieved_chunk_count = retrieved_chunk_count;
      } in
      (ok response, record_audit_event response log)

  -- After `build_citations`.
  unfoldable pub respond :
      ℕ
      → LlmResponse
      → Raises (List (ChatCitation F))
      → AuditLog F
      → Raises (ChatResponse F) × AuditLog F
  respond count llm_response (raise e) log = (raise e, log)
  respond count llm_response (ok citations) log =
      let response : ChatResponse F = record {
        answer = llm_response.content;
        model = llm_response.model;
        citations = citations;
        usage = llm_response.usage;
        retrieved_chunk_count = count;
      } in
      (ok response, record_audit_event response log)

  -- After `_extract_citation_ids`.
  unfoldable pub answer_with_ids :
      List (RerankedChunk F)
      → LlmResponse
      → Raises (List ℕ)
      → AuditLog F
      → Raises (ChatResponse F) × AuditLog F
  answer_with_ids supported llm_response (raise e) log = (raise e, log)
  answer_with_ids supported llm_response (ok []) log =
      no_answer (length supported) llm_response.usage log
  answer_with_ids supported llm_response (ok (i ∷ ids)) log =
      respond (length supported) llm_response (build_citations supported (i ∷ ids)) log

  -- After `self._llm_client.generate`.
  unfoldable pub answer_from_llm :
      List (RerankedChunk F)
      → Raises LlmResponse
      → AuditLog F
      → Raises (ChatResponse F) × AuditLog F
  answer_from_llm supported (raise e) log = (raise e, log)
  answer_from_llm supported (ok llm_response) log =
      answer_with_ids supported llm_response
        (extract_citation_ids digit llm_response.content (length supported)) log

  -- After `_filter_supported_chunks`.
  unfoldable pub answer_from_supported :
      List (RerankedChunk F) → AuditLog F → Raises (ChatResponse F) × AuditLog F
  answer_from_supported [] log = no_answer 0 no_usage log
  answer_from_supported (item ∷ items) log =
      answer_from_llm (item ∷ items)
        (llm system_prompt
          (build_user_prompt decimal request.question (map (λ i. i.chunk) (item ∷ items))))
        log

  -- After `self._reranker.rerank`.
  unfoldable pub answer_from_reranked :
      Raises (List (RerankedChunk F)) → AuditLog F → Raises (ChatResponse F) × AuditLog F
  answer_from_reranked (raise e) log = (raise e, log)
  answer_from_reranked (ok reranked) log =
      answer_from_supported (filter_supported_chunks at_least config.min_relevance_score reranked)
        log

  -- After `self._retriever.retrieve`.
  unfoldable pub answer_from_chunks :
      Raises (List (RetrievedChunk F)) → AuditLog F → Raises (ChatResponse F) × AuditLog F
  answer_from_chunks (raise e) log = (raise e, log)
  answer_from_chunks (ok []) log = no_answer 0 no_usage log
  answer_from_chunks (ok (c ∷ cs)) log =
      answer_from_reranked
        (rerank (record { query = request.question; chunks = c ∷ cs; top_k = final_top_k })) log

  unfoldable pub answer : Retriever F → AuditLog F → Raises (ChatResponse F) × AuditLog F
  answer retrieve log =
      answer_from_chunks
        (retrieve request.question
          (record {
            workspace_id = context.workspace_id;
            document_ids = request.document_ids;
            security_levels = request.security_levels;
          })
          final_retrieval_limit)
        log
