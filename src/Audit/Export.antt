-- ===== src/Audit/Export.antt =====
-- backend/app/audit/export.py: `build_chat_audit_csv`. A row is the list of its cells in the order
-- of the column names, and `write_row` is the line that the module csv writes for it; `format_utc`
-- is `_format_utc`, the text that datetime makes of a time.
use doc_search_ai.Audit.Store.{StoredEvent}
use doc_search_ai.Text.{Text, text, join}
use doc_search_ai.Common.{List, Option, ℕ, [], ◌∷◌, ◌++◌, none, some, map}

pub data Cell : Type 0 where
  str : Text → Cell
  int : ℕ → Cell

abbrev pub csv_fieldnames : List Cell
csv_fieldnames = map str (
    text "이벤트 ID"
    ∷ text "발생 시각"
    ∷ text "이벤트 유형"
    ∷ text "워크스페이스 ID"
    ∷ text "워크스페이스 이름"
    ∷ text "요청 ID"
    ∷ text "질문"
    ∷ text "답변 미리보기"
    ∷ text "문서 ID"
    ∷ text "출처 파일"
    ∷ text "검색 제한"
    ∷ text "리랭크 상위 K"
    ∷ text "검색 청크 수"
    ∷ text "모델"
    ∷ text "프롬프트 토큰"
    ∷ text "완료 토큰"
    ∷ text "전체 토큰"
    ∷ [])

unfoldable pub join_values : List Text → Text
join_values values = join (text "; ") values

abbrev pub optional_number : Option ℕ → Cell
optional_number none = str []
optional_number (some n) = int n

module _ {F : Type 0} (format_utc : ℕ → Text) where
  unfoldable pub event_row : StoredEvent F → List Cell
  event_row e =
      str e.event_id
      ∷ str (format_utc e.occurred_at)
      ∷ str e.event_type
      ∷ str e.event.workspace_id
      ∷ str e.event.workspace_name
      ∷ str e.event.request_id
      ∷ str e.event.question
      ∷ str e.event.answer_preview
      ∷ str (join_values (elim e.event.document_ids [ none ↦ [] | some ids ↦ ids ]))
      ∷ str (join_values (map (λ c. c.filename) e.event.citations))
      ∷ int e.event.retrieval_limit
      ∷ int e.event.rerank_top_k
      ∷ int e.event.retrieved_chunk_count
      ∷ str e.event.model
      ∷ optional_number e.event.usage.prompt_tokens
      ∷ optional_number e.event.usage.completion_tokens
      ∷ optional_number e.event.usage.total_tokens
      ∷ []

  unfoldable pub write_rows : (List Cell → Text) → List (StoredEvent F) → Text
  write_rows write_row [] = []
  write_rows write_row (e ∷ events) = write_row (event_row e) ++ write_rows write_row events

  unfoldable pub build_chat_audit_csv : (List Cell → Text) → List (StoredEvent F) → Text
  build_chat_audit_csv write_row events = write_row csv_fieldnames ++ write_rows write_row events
