-- ===== src/Chat/Service.antt =====
-- backend/app/chat/service.py: `ChatService`. The retriever, the reranker and the model are
-- parameters; the audit log is the list of `InMemoryAuditLogStore`. `at_least` is `>=` on scores,
-- `digit` the value of a digit, `decimal` is `str` of an int.
use doc_search_ai.Retrieval.Store.{RetrievedChunk}
use doc_search_ai.Errors.{Raises, other}
use doc_search_ai.Auth.Models.{WorkspaceContext}
use doc_search_ai.Chat.Rerank.{RerankedChunk}
use doc_search_ai.Common.{
  ℕ, Option, Bool, List, none, filter, get_elem?, length, some, ◌∷◌, ◌++◌, reverse, ok, map, suc,
  if◌then◌else◌, ◌>>=◌, [], zero, leb, raise, take, ◌-◌,
}
use doc_search_ai.Text.{Text, text, join, split_ws}

pub record ChatRequest : Type 0 where
  pub question : Text
  pub document_ids : Option (List Text)
  pub security_levels : Option (List Text)
  pub top_k : Option ℕ

pub record ChatCitation (F : Type 0) : Type 0 where
  pub citation_id : ℕ
  pub document_id : Text
  pub filename : Text
  pub security_level : Text
  pub chunk_index : ℕ
  pub score : F
  pub rerank_score : F
  pub snippet : Text

pub record ChatUsage : Type 0 where
  pub prompt_tokens : Option ℕ
  pub completion_tokens : Option ℕ
  pub total_tokens : Option ℕ

pub record ChatResponse (F : Type 0) : Type 0 where
  pub answer : Text
  pub model : Text
  pub citations : List (ChatCitation F)
  pub usage : ChatUsage
  pub retrieved_chunk_count : ℕ

pub record AuditCitation (F : Type 0) : Type 0 where
  pub citation_id : ℕ
  pub document_id : Text
  pub filename : Text
  pub chunk_index : ℕ
  pub score : F
  pub rerank_score : F

pub record ChatAuditEvent (F : Type 0) : Type 0 where
  pub request_id : Text
  pub workspace_id : Text
  pub workspace_name : Text
  pub question : Text
  pub document_ids : Option (List Text)
  pub retrieval_limit : ℕ
  pub rerank_top_k : ℕ
  pub retrieved_chunk_count : ℕ
  pub model : Text
  pub answer_preview : Text
  pub answer_character_count : ℕ
  pub usage : ChatUsage
  pub citations : List (AuditCitation F)

pub record LlmResponse : Type 0 where
  pub content : Text
  pub model : Text
  pub finish_reason : Option Text
  pub usage : ChatUsage

-- The two messages of a prompt: the system's and the user's.
abbrev pub LlmClient : Type 0
LlmClient = Text → Text → Raises LlmResponse

abbrev pub system_prompt : Text
system_prompt =
    text "허용된 문서 컨텍스트만 사용해서 한국어로 답하세요. 컨텍스트에 없는 내용은 모른다고 답하고, 답변에는 [1] 형식의 출처 번호를 포함하세요."

abbrev pub no_answer_message : Text
no_answer_message = text "모르겠습니다. 제공된 문서에서 답변 근거를 찾지 못했습니다."

abbrev pub no_answer_model : Text
no_answer_model = text "grounding-policy"

-- `" ".join(value.split())`, cut to `limit` characters with an ellipsis.
unfoldable pub shorten : ℕ → Text → Text
shorten limit value =
    let normalized = join (text " ") (split_ws value) in
    if leb (length normalized) limit then normalized else take (limit - 3) normalized ++ text "..."

unfoldable pub build_snippet : Text → Text
build_snippet chunk_text = shorten 240 chunk_text

unfoldable pub build_answer_preview : Text → Text
build_answer_preview answer = shorten 500 answer

-- One entry of the prompt's context for each chunk, numbered from `index`.
unfoldable pub context_entries : {F : Type 0} → (ℕ → Text) → ℕ → List (RetrievedChunk F) → List Text
context_entries decimal index [] = []
context_entries decimal index (c ∷ cs) =
    (text "["
      ++ decimal index
      ++ text "] "
      ++ c.filename
      ++ text "#"
      ++ decimal c.chunk_index
      ++ text "\n"
      ++ c.chunk_text)
    ∷ context_entries decimal (suc index) cs

unfoldable pub build_user_prompt : {F : Type 0} → (ℕ → Text) → Text → List (RetrievedChunk F) → Text
build_user_prompt decimal question chunks =
    text "질문:\n"
    ++ question
    ++ text "\n\n문서 컨텍스트:\n"
    ++ join (text "\n\n") (context_entries decimal 1 chunks)
    ++ text "\n\n위 컨텍스트만 근거로 답하고, 문장 끝에 관련 출처 번호를 붙이세요."

module _ {F : Type 0} where
  -- `_relevance_score`: the reranker's score is always there.
  abbrev pub relevance_score : RerankedChunk F → F
  relevance_score item = item.rerank_score

  unfoldable pub filter_supported_chunks :
      (F → F → Bool) → F → List (RerankedChunk F) → List (RerankedChunk F)
  filter_supported_chunks at_least min_relevance_score chunks =
      filter (λ item. at_least (relevance_score item) min_relevance_score) chunks

  abbrev pub to_citation : ℕ → RerankedChunk F → ChatCitation F
  to_citation citation_id item = record {
    citation_id = citation_id;
    document_id = item.chunk.document_id;
    filename = item.chunk.filename;
    security_level = item.chunk.security_level;
    chunk_index = item.chunk.chunk_index;
    score = item.chunk.score;
    rerank_score = item.rerank_score;
    snippet = build_snippet item.chunk.chunk_text;
  }

  -- `chunks[citation_id - 1]`; for 0 this is `chunks[-1]`, the last one.
  unfoldable pub chunk_numbered : List (RerankedChunk F) → ℕ → Option (RerankedChunk F)
  chunk_numbered chunks zero = get_elem? (reverse chunks) 0
  chunk_numbered chunks (suc i) = get_elem? chunks i

  unfoldable pub build_citations : List (RerankedChunk F) → List ℕ → Raises (List (ChatCitation F))
  build_citations chunks [] = ok []
  build_citations chunks (citation_id ∷ ids) = do
    item ← elim (chunk_numbered chunks citation_id) [
      | none ↦ raise (other (text "IndexError"))
      | some item ↦ ok item
    ]
    rest ← build_citations chunks ids
    ok (to_citation citation_id item ∷ rest)

  -- The event that `_record_audit_event` records.
  abbrev pub audit_event :
      WorkspaceContext → ChatRequest → ChatResponse F → ℕ → ℕ → ChatAuditEvent F
  audit_event context request response retrieval_limit rerank_top_k = record {
    request_id = context.request_id;
    workspace_id = context.workspace_id;
    workspace_name = context.workspace_name;
    question = request.question;
    document_ids = request.document_ids;
    retrieval_limit = retrieval_limit;
    rerank_top_k = rerank_top_k;
    retrieved_chunk_count = response.retrieved_chunk_count;
    model = response.model;
    answer_preview = build_answer_preview response.answer;
    answer_character_count = length response.answer;
    usage = response.usage;
    citations =
        map
          (λ c. record {
            citation_id = c.citation_id;
            document_id = c.document_id;
            filename = c.filename;
            chunk_index = c.chunk_index;
            score = c.score;
            rerank_score = c.rerank_score;
          })
          response.citations;
  }

abbrev pub AuditLog : Type 0 → Type 0
AuditLog F = List (ChatAuditEvent F)

abbrev pub no_usage : ChatUsage
no_usage = record { prompt_tokens = none; completion_tokens = none; total_tokens = none }

pub record ChatConfig (F : Type 0) : Type 0 where
  pub retrieval_limit : ℕ
  pub rerank_top_k : ℕ
  pub min_relevance_score : F

-- `chat_request.top_k or self._rerank_top_k`
abbrev pub nonzero_or : Option ℕ → ℕ → ℕ
nonzero_or none default = default
nonzero_or (some zero) default = default
nonzero_or (some (suc n)) default = suc n
