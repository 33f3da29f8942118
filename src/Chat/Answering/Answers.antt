-- ===== src/Chat/Answering/Answers.antt =====
-- What an answer rests on.
use doc_search_ai.Chat.Answering.Grounding.{Cites, build_citations_total, build_citations-Cites}
use doc_search_ai.Chat.Citations.{extract_citation_ids}
use doc_search_ai.Chat.Citations.Bounds.{InRange, extract_citation_ids-InRange}
use doc_search_ai.Chat.Answering.{
  answer_with_ids, answer_from_supported, answer_from_chunks, no_answer, answer_from_llm,
  answer_from_reranked, respond, final_top_k,
}
use doc_search_ai.Errors.{Raises}
use doc_search_ai.Retrieval.Store.{RetrievedChunk}
use doc_search_ai.Auth.Models.{WorkspaceContext}
use doc_search_ai.Text.{Text}
use doc_search_ai.Common.{
  Bool, ℕ, Option, ◌≡◌, filter, true, OnOk, List, [], All, ◌⊎◌, inl, ◌∷◌, raise, ◌<◌, length,
  Bool-cases, ok, Result-cases, inr, arith, ap, refl, length-map, map,
}
use doc_search_ai.Chat.Service.{
  LlmClient, ChatConfig, ChatRequest, ChatResponse, filter_supported_chunks, AuditLog,
  no_answer_message, LlmResponse, system_prompt, build_user_prompt, ChatCitation,
}
use doc_search_ai.Chat.Rerank.{Reranker, IsHonest, RerankedChunk, RerankRequest}

module _ {F : Type 0} (rerank : Reranker F) (honest : IsHonest rerank) (llm : LlmClient)
    (at_least : F → F → Bool) (digit : ℕ → Option ℕ) (decimal : ℕ → Text) (config : ChatConfig F)
    (context : WorkspaceContext) (request : ChatRequest) (P : RetrievedChunk F → Type 0) where
  -- A chunk that may be cited: one with the property that is relevant enough.
  abbrev pub Relevant : RerankedChunk F → Type 0
  Relevant item = P item.chunk × (at_least item.rerank_score config.min_relevance_score ≡ true)

  -- Either the fixed message without citations, or at least one citation, and only of such chunks.
  abbrev pub IsGrounded : ChatResponse F → Type 0
  IsGrounded response =
      ((response.answer ≡ no_answer_message) × (response.citations ≡ []))
      ⊎ ((0 < length response.citations) × All (Cites Relevant) response.citations)

  abbrev pub GroundedRun : Raises (ChatResponse F) × AuditLog F → Type 0
  GroundedRun run = OnOk IsGrounded run.0

  with_ids-Grounded :
      (supported : List (RerankedChunk F)) (r : LlmResponse) (ids : Raises (List ℕ))
      (log : AuditLog F)
      → All Relevant supported
      → OnOk (λ l. All (InRange (length supported)) l) ids
      → GroundedRun (
          answer_with_ids rerank llm at_least digit decimal config context request supported r ids
            log)
  unfolding answer_with_ids no_answer respond
  with_ids-Grounded supported r (raise e) log g h = tt
  with_ids-Grounded supported r (ok []) log g h = inl (refl, refl)
  with_ids-Grounded supported r (ok (i ∷ ids)) log g h =
      let (citations, run, numbers) = build_citations_total supported (i ∷ ids) h in
      rw run (
        inr (
          omega (
            arith,
            ap length numbers,
            length-map (λ (c : ChatCitation F). c.citation_id) citations,
          ),
          build_citations-Cites Relevant supported (i ∷ ids) citations g h run,
        ))

  supported-Grounded :
      (supported : List (RerankedChunk F)) (log : AuditLog F)
      → All Relevant supported
      → GroundedRun (
          answer_from_supported rerank llm at_least digit decimal config context request supported
            log)
  unfolding answer_from_supported answer_from_llm no_answer
  supported-Grounded [] log g = inl (refl, refl)
  supported-Grounded (item ∷ items) log g =
      elim (Result-cases (
        llm system_prompt
          (build_user_prompt decimal request.question (map (λ i. i.chunk) (item ∷ items))))) [
            | inr (m, e) ↦ rw e tt
            | inl (r, e) ↦ rw e (
                with_ids-Grounded (item ∷ items) r _ log g
                  (in_range r.content (length (item ∷ items))))
          ]
    where
      in_range :
          (content : Text) (n : ℕ)
          → OnOk (λ l. All (InRange n) l) (extract_citation_ids digit content n)
      in_range content n = elim (Result-cases (extract_citation_ids digit content n)) [
        | inl (ids, e) ↦ rw e (extract_citation_ids-InRange digit content n ids e).0
        | inr (m, e) ↦ rw e tt
      ]

  supported-Relevant :
      (reranked : List (RerankedChunk F))
      → All (λ item. P item.chunk) reranked
      → All Relevant (filter_supported_chunks at_least config.min_relevance_score reranked)
  unfolding filter_supported_chunks filter
  supported-Relevant [] h = tt
  supported-Relevant (item ∷ items) h =
      elim (Bool-cases (at_least item.rerank_score config.min_relevance_score)) [
        | inl e ↦ rw (filter_supported_chunks, filter, e) ((h.0, e), supported-Relevant items h.1)
        | inr e ↦ rw (filter_supported_chunks, filter, e) (supported-Relevant items h.1)
      ]

  pub chunks-Grounded :
      (chunks : Raises (List (RetrievedChunk F))) (log : AuditLog F)
      → OnOk (λ l. All P l) chunks
      → GroundedRun
          (answer_from_chunks rerank llm at_least digit decimal config context request chunks log)
  unfolding answer_from_chunks answer_from_reranked no_answer
  chunks-Grounded (raise e) log h = tt
  chunks-Grounded (ok []) log h = inl (refl, refl)
  chunks-Grounded (ok (c ∷ cs)) log h =
      let asked : RerankRequest F = record {
        query = request.question;
        chunks = c ∷ cs;
        top_k = final_top_k rerank llm at_least digit decimal config context request;
      } in
      elim (Result-cases (rerank asked)) [
        | inr (m, e) ↦ rw e tt
        | inl (reranked, e) ↦ rw e (
            supported-Grounded
              (filter_supported_chunks at_least config.min_relevance_score reranked) log
              (supported-Relevant reranked (honest P asked reranked h e).0))
      ]
