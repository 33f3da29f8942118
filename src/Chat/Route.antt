-- ===== src/Chat/Route.antt =====
-- backend/app/chat/router.py: `answer_question`. `ChatContextNotFoundError` is raised nowhere, so
-- its clause has no case here.
pub mod Isolation
use doc_search_ai.Chat.Answering.{answer}
use doc_search_ai.Documents.Security.{filter_document_security_levels_for_role}
use doc_search_ai.Auth.Models.{WorkspaceContext}
use doc_search_ai.Text.{text, Text}
use doc_search_ai.Common.{Bool, ℕ, Option, List, raise, ok}
use doc_search_ai.Chat.Service.{LlmClient, ChatConfig, ChatRequest, AuditLog, ChatResponse}
use doc_search_ai.Search.Route.{security_forbidden, Retriever}
use doc_search_ai.Chat.Rerank.{Reranker}
use doc_search_ai.Errors.{
  Exception, embedding_provider, http, llm_provider, reranker_provider, security_permission, Raises,
  translate,
}

-- The `except` clauses of the handler.
unfoldable pub on_chat_error : Exception → Exception
on_chat_error security_permission = security_forbidden
on_chat_error (embedding_provider m) = http 502 (text "CHAT_EMBEDDING_UNAVAILABLE")
on_chat_error (llm_provider m) = http 502 (text "CHAT_LLM_UNAVAILABLE")
on_chat_error (reranker_provider m) = http 502 (text "CHAT_RERANKER_UNAVAILABLE")
on_chat_error e = e

module _ {F : Type 0} (rerank : Reranker F) (llm : LlmClient) (at_least : F → F → Bool)
    (digit : ℕ → Option ℕ) (decimal : ℕ → Text) (config : ChatConfig F) where
  -- After the levels are known.
  unfoldable pub answer_with_levels :
      Retriever F
      → WorkspaceContext
      → ChatRequest
      → AuditLog F
      → Raises (Option (List Text))
      → Raises (ChatResponse F) × AuditLog F
  answer_with_levels retrieve context request log (raise e) = (raise (on_chat_error e), log)
  answer_with_levels retrieve context request log (ok levels) =
      let run =
        answer rerank llm at_least digit decimal config context
          (record request { security_levels = levels }) retrieve log in
      (translate on_chat_error run.0, run.1)

  unfoldable pub answer_question :
      Retriever F
      → WorkspaceContext
      → ChatRequest
      → AuditLog F
      → Raises (ChatResponse F) × AuditLog F
  answer_question retrieve context request log =
      answer_with_levels retrieve context request log
        (filter_document_security_levels_for_role context.role request.security_levels)
