-- ===== src/Chat/Answering/Audit.antt =====
-- Every answer leaves one event in the audit log.
use doc_search_ai.Retrieval.Store.{RetrievedChunk}
use doc_search_ai.Search.Route.{Retriever}
use doc_search_ai.Errors.{Raises}
use doc_search_ai.Chat.Answering.{
  answer_with_ids, answer_from_supported, answer_from_chunks, answer, no_answer, answer_from_llm,
  answer_from_reranked, respond, record_audit_event, final_retrieval_limit, final_top_k,
}
use doc_search_ai.Auth.Models.{WorkspaceContext}
use doc_search_ai.Text.{Text}
use doc_search_ai.Common.{
  Bool, ℕ, Option, ◌≡◌, List, ok, ◌++◌, ◌∷◌, raise, Result-cases, [], inl, map, inr, refl, none,
  some, zero, suc, max, length,
}
use doc_search_ai.Chat.Service.{
  ChatAuditEvent, ChatCitation, nonzero_or, build_answer_preview, shorten, LlmClient, ChatConfig,
  ChatRequest, AuditLog, ChatResponse, LlmResponse, audit_event, build_citations, system_prompt,
  build_user_prompt, filter_supported_chunks,
}
use doc_search_ai.Chat.Answering.Grounding.{cut_to}
use doc_search_ai.Chat.Rerank.{Reranker, RerankedChunk}

module _ {F : Type 0} (rerank : Reranker F) (llm : LlmClient) (at_least : F → F → Bool)
    (digit : ℕ → Option ℕ) (decimal : ℕ → Text) (config : ChatConfig F) (context : WorkspaceContext)
    (request : ChatRequest) where
  -- The log after a run, with the event that the code makes.
  abbrev AuditedAs : AuditLog F → Raises (ChatResponse F) × AuditLog F → Type 0
  AuditedAs log run = run.1 ≡ elim run.0 [
    | ok response ↦
        log
        ++ audit_event context request response
            (final_retrieval_limit rerank llm at_least digit decimal config context request)
            (final_top_k rerank llm at_least digit decimal config context request)
          ∷ []
    | raise e ↦ log
  ]

  with_ids-Audited :
      (supported : List (RerankedChunk F)) (r : LlmResponse) (ids : Raises (List ℕ))
      (log : AuditLog F)
      → AuditedAs log (
          answer_with_ids rerank llm at_least digit decimal config context request supported r ids
            log)
  unfolding answer_with_ids no_answer respond record_audit_event
  with_ids-Audited supported r (raise e) log = refl
  with_ids-Audited supported r (ok []) log = refl
  with_ids-Audited supported r (ok (i ∷ ids)) log =
      elim (Result-cases (build_citations supported (i ∷ ids))) [
        | inl (cs, e) ↦ rw e refl
        | inr (m, e) ↦ rw e refl
      ]

  supported-Audited :
      (supported : List (RerankedChunk F)) (log : AuditLog F)
      → AuditedAs log (
          answer_from_supported rerank llm at_least digit decimal config context request supported
            log)
  unfolding answer_from_supported answer_from_llm no_answer record_audit_event
  supported-Audited [] log = refl
  supported-Audited (item ∷ items) log =
      elim (Result-cases (
        llm system_prompt
          (build_user_prompt decimal request.question (map (λ i. i.chunk) (item ∷ items))))) [
            | inl (r, e) ↦ rw e (with_ids-Audited (item ∷ items) r _ log)
            | inr (m, e) ↦ rw e refl
          ]

  chunks-Audited :
      (chunks : Raises (List (RetrievedChunk F))) (log : AuditLog F)
      → AuditedAs log
          (answer_from_chunks rerank llm at_least digit decimal config context request chunks log)
  unfolding answer_from_chunks answer_from_reranked no_answer record_audit_event
  chunks-Audited (raise e) log = refl
  chunks-Audited (ok []) log = refl
  chunks-Audited (ok (c ∷ cs)) log =
      elim (Result-cases (
        rerank (record {
          query = request.question;
          chunks = c ∷ cs;
          top_k = final_top_k rerank llm at_least digit decimal config context request;
        }))) [
          | inl (r, e) ↦ rw e (
              supported-Audited (filter_supported_chunks at_least config.min_relevance_score r) log)
          | inr (m, e) ↦ rw e refl
        ]

  -- The number of chunks that the request asks for, or the default where it asks for none or 0.
  abbrev pub asked_top_k : Option ℕ → ℕ
  asked_top_k none = config.rerank_top_k
  asked_top_k (some zero) = config.rerank_top_k
  asked_top_k (some (suc k)) = suc k

  top_k-eq :
      final_top_k rerank llm at_least digit decimal config context request
      ≡ asked_top_k request.top_k
  top_k-eq = nonzero_or-eq request.top_k
    where
      nonzero_or-eq : (o : Option ℕ) → nonzero_or o config.rerank_top_k ≡ asked_top_k o
      nonzero_or-eq none = refl
      nonzero_or-eq (some zero) = refl
      nonzero_or-eq (some (suc k)) = refl

  -- The event that is due for a response: the caller, the question and its documents, the limits of
  -- the retrieval and of the reranking, the model and its usage, the preview and the length of the
  -- answer, and the citations.
  abbrev pub due_event : ChatResponse F → ChatAuditEvent F
  due_event response = record {
    request_id = context.request_id;
    workspace_id = context.workspace_id;
    workspace_name = context.workspace_name;
    question = request.question;
    document_ids = request.document_ids;
    retrieval_limit = max config.retrieval_limit (asked_top_k request.top_k);
    rerank_top_k = asked_top_k request.top_k;
    retrieved_chunk_count = response.retrieved_chunk_count;
    model = response.model;
    answer_preview = cut_to 500 response.answer;
    answer_character_count = length response.answer;
    usage = response.usage;
    citations =
        map
          (λ (c : ChatCitation F). record {
            citation_id = c.citation_id;
            document_id = c.document_id;
            filename = c.filename;
            chunk_index = c.chunk_index;
            score = c.score;
            rerank_score = c.rerank_score;
          })
          response.citations;
  }

  -- The log after a run: one event more, the one that is due for the response, or none after an
  -- exception.
  abbrev pub Audited : AuditLog F → Raises (ChatResponse F) × AuditLog F → Type 0
  Audited log run =
      run.1 ≡ elim run.0 [ ok response ↦ log ++ due_event response ∷ [] | raise e ↦ log ]

  as_due :
      (log : AuditLog F) (run : Raises (ChatResponse F) × AuditLog F)
      → AuditedAs log run
      → Audited log run
  unfolding build_answer_preview shorten
  as_due log (ok response, log') h = rw (← top_k-eq) h
  as_due log (raise e, log') h = h

  -- An answer that is returned has been recorded, once, with the caller, the question, the limits,
  -- the preview and the length of the answer, and its citations; when `answer` raises, the log is as
  -- before.
  pub answer-Audited :
      (retrieve : Retriever F) (log : AuditLog F)
      → Audited log (answer rerank llm at_least digit decimal config context request retrieve log)
  unfolding answer
  answer-Audited retrieve log = as_due log _ (chunks-Audited _ log)
