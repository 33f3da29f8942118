-- ===== src/Chat/Route/Isolation.antt =====
-- What an answer may cite: the same as what a search may show.
use doc_search_ai.Retrieval.Retriever.Isolation.{retrieve-Answers}
use doc_search_ai.Chat.Answering.Grounding.{Cites}
use doc_search_ai.Retrieval.Retriever.{Embedder, FloatOps, HybridConfig, retrieve}
use doc_search_ai.Retrieval.Store.{QdrantClient, ClientLaws, RetrievedChunk}
use doc_search_ai.Documents.Security.Access.{filter_for_role-Permits}
use doc_search_ai.Errors.{translate-ok}
use doc_search_ai.Documents.Security.{filter_document_security_levels_for_role}
use doc_search_ai.Retrieval.Filters.{RetrievalFilter}
use doc_search_ai.Chat.Answering.{answer}
use doc_search_ai.Chat.Answering.Answers.{IsGrounded, chunks-Grounded}
use doc_search_ai.Chat.Route.{answer_question, answer_with_levels, on_chat_error}
use doc_search_ai.Auth.Models.{WorkspaceContext}
use doc_search_ai.Search.Route.Access.{IsSound, Found, given-Found}
use doc_search_ai.Search.Route.{Retriever}
use doc_search_ai.Text.{Text}
use doc_search_ai.Common.{
  Bool, ℕ, Option, ◌≡◌, ok, Result-cases, inr, ap, inl, List, OnOk_at, OnOk, All, [], ◌⊎◌, ◌<◌,
  length, true,
}
use doc_search_ai.Chat.Service.{
  LlmClient, ChatConfig, ChatRequest, ChatResponse, AuditLog, no_answer_message,
}
use doc_search_ai.Chat.Rerank.{
  Reranker, IsHonest, RerankRequest, HttpOutcome, get_reranker, get_reranker-IsHonest,
}

module _ {F : Type 0} (rerank : Reranker F) (honest : IsHonest rerank) (llm : LlmClient)
    (at_least : F → F → Bool) (digit : ℕ → Option ℕ) (decimal : ℕ → Text) (config : ChatConfig F)
    (retrieve : Retriever F) (sound : IsSound retrieve) (context : WorkspaceContext)
    (request : ChatRequest) where
  -- What a citation may be of.
  abbrev pub IsCitable : RetrievedChunk F → Type 0
  IsCitable = Found retrieve context request.question request.document_ids

  -- What an answer is that cites only chunks that the caller may see.
  abbrev pub CitesVisible : ChatResponse F → Type 0
  CitesVisible =
      IsGrounded rerank honest llm at_least digit decimal config context request IsCitable

  retrieved :
      (levels : Option (List Text))
      → filter_document_security_levels_for_role context.role request.security_levels ≡ ok levels
      → (n : ℕ)
      → OnOk
          (λ l. All IsCitable l)
          (retrieve request.question
            (record {
              workspace_id = context.workspace_id;
              document_ids = request.document_ids;
              security_levels = levels;
            })
            n)
  retrieved levels e n =
      let filters : RetrievalFilter = record {
        workspace_id = context.workspace_id;
        document_ids = request.document_ids;
        security_levels = levels;
      } in
      elim (Result-cases (retrieve request.question filters n)) [
        | inr (m, run) ↦ rw run tt
        | inl (chunks, run) ↦
            rw run
              (given-Found retrieve context request.question request.document_ids levels n chunks
                sound (filter_for_role-Permits context.role request.security_levels levels e) run).0
      ]

  -- An answer that is returned is the fixed message without citations, or it has a citation, and
  -- each one is of a chunk that is relevant enough, that the retriever gave for the
  -- question in the caller's workspace, of that workspace, of a document asked
  -- for, and of a level that the caller's role may read.
  pub answer_question-CitesVisible :
      (log log' : AuditLog F) (response : ChatResponse F)
      → answer_question rerank llm at_least digit decimal config retrieve context request log
        ≡ (ok response, log')
      → CitesVisible response
  unfolding answer_question answer_with_levels answer
  answer_question-CitesVisible log log' response h =
      elim (Result-cases
        (filter_document_security_levels_for_role context.role request.security_levels)) [
          | inr (m, e) ↦
              let k = ap (λ r. r.0) (rw (answer_question, e, answer_with_levels) at h) in absurd cc
          | inl (levels, e) ↦
              let k = ap (λ r. r.0) (rw (answer_question, e, answer_with_levels) at h) in
              let ran = translate-ok on_chat_error _ k in
              OnOk_at CitesVisible _
                (chunks-Grounded rerank honest llm at_least digit decimal config context
                  (record request { security_levels = levels }) IsCitable _ log
                  (retrieved levels e _))
                ran
        ]

-- A chat answer, with either retriever over a vector store that respects its filters and either
-- reranker, is the fixed message without citations, or it has at least one citation, and each one
-- is, in all its fields, of a chunk that scored at least the minimum, that the retriever gave for
-- the question in the caller's workspace, of that workspace, of one of the
-- documents asked for if any are, and of a level that the caller's role may read.
pub chat_isolated :
    {Vector F Db : Type 0} (client : QdrantClient Vector F Db) (laws : ClientLaws client)
    (embedder : Embedder Vector) (ops : FloatOps F) (lower : Text → Text) (is_word : ℕ → Bool)
    (hybrid : HybridConfig F) (mode : Text) (db : Db) (post : RerankRequest F → HttpOutcome F)
    (backend : Text) (llm : LlmClient) (at_least : F → F → Bool) (digit : ℕ → Option ℕ)
    (decimal : ℕ → Text) (config : ChatConfig F) (context : WorkspaceContext)
    (request : ChatRequest) (log log' : AuditLog F) (response : ChatResponse F)
    → answer_question
        (get_reranker post backend)
        llm
        at_least
        digit
        decimal
        config
        (retrieve client embedder ops lower is_word hybrid mode db)
        context
        request
        log
      ≡ (ok response, log')
    → ((response.answer ≡ no_answer_message) × (response.citations ≡ []))
      ⊎ ((0 < length response.citations)
          × All
              (Cites (λ item.
                Found
                  (retrieve client embedder ops lower is_word hybrid mode db)
                  context
                  request.question
                  request.document_ids
                  item.chunk
                × (at_least item.rerank_score config.min_relevance_score ≡ true)))
              response.citations)
chat_isolated client laws embedder ops lower is_word hybrid mode db post backend llm at_least digit
      decimal config context request log log' response h =
    answer_question-CitesVisible (get_reranker post backend) (get_reranker-IsHonest post backend)
      llm at_least digit decimal config _
      (retrieve-Answers client laws embedder ops lower is_word hybrid mode db) context request log
      log' response h
