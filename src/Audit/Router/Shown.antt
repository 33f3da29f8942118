-- ===== src/Audit/Router/Shown.antt =====
-- Who is shown the audit log, and which of it.
use doc_search_ai.Audit.Store.Asked.{Asked, matches_filters-Asked}
use doc_search_ai.Audit.Router.{
  AuditQuery, ChatAuditEventListResponse, build_chat_audit_filters, list_chat_audit_events,
  export_chat_audit_events,
}
use doc_search_ai.Audit.Store.{StoredEvent, latest_first, ChatAuditEventFilters}
use doc_search_ai.Audit.Store.Listing.{list_chat_events_lem}
use doc_search_ai.Audit.Export.{
  Cell, str, int, csv_fieldnames, optional_number, join_values, event_row, write_rows,
  build_chat_audit_csv,
}
use doc_search_ai.Auth.Models.{WorkspaceContext, admin_role}
use doc_search_ai.Auth.Router.{Request, require_workspace_context, require_admin_workspace_context}
use doc_search_ai.Auth.Router.Contexts.{admin-role}
use doc_search_ai.Auth.Tokens.{Crypto}
use doc_search_ai.Auth.Service.{AuthSettings}
use doc_search_ai.Text.{Text, text, join}
use doc_search_ai.Common.{
  List, ℕ, ok, ◌≡◌, ◌≤◌, length, All, All-mono, IsSorted, bind-eq-ok, bind-of-ok, ok-injective,
  refl, Option, none, some, [], ◌∷◌, ◌++◌, map, ap, ◌∙◌,
}

-- The filters that a query asks for.
abbrev pub asked_filters : AuditQuery → ChatAuditEventFilters
asked_filters q = record {
  query = q.query;
  document_id = q.document_id;
  request_id = q.request_id;
  event_type = none;
  occurred_from = q.occurred_from;
  occurred_to = q.occurred_to;
  limit = q.limit;
}

-- The columns of an export.
abbrev pub columns : List Cell
columns =
    str (text "이벤트 ID")
    ∷ str (text "발생 시각")
    ∷ str (text "이벤트 유형")
    ∷ str (text "워크스페이스 ID")
    ∷ str (text "워크스페이스 이름")
    ∷ str (text "요청 ID")
    ∷ str (text "질문")
    ∷ str (text "답변 미리보기")
    ∷ str (text "문서 ID")
    ∷ str (text "출처 파일")
    ∷ str (text "검색 제한")
    ∷ str (text "리랭크 상위 K")
    ∷ str (text "검색 청크 수")
    ∷ str (text "모델")
    ∷ str (text "프롬프트 토큰")
    ∷ str (text "완료 토큰")
    ∷ str (text "전체 토큰")
    ∷ []

abbrev pub number_cell : Option ℕ → Cell
number_cell o = elim o [ none ↦ str [] | some n ↦ int n ]

-- The rows, each on its line.
abbrev pub lines : (List Cell → Text) → List (List Cell) → Text
lines write_row [] = []
lines write_row (row ∷ rows) = write_row row ++ lines write_row rows

-- The cells of an event, in the order of the columns.
abbrev pub cells : {F : Type 0} → (ℕ → Text) → StoredEvent F → List Cell
cells format_utc e =
    str e.event_id
    ∷ str (format_utc e.occurred_at)
    ∷ str e.event_type
    ∷ str e.event.workspace_id
    ∷ str e.event.workspace_name
    ∷ str e.event.request_id
    ∷ str e.event.question
    ∷ str e.event.answer_preview
    ∷ str (join (text "; ") (elim e.event.document_ids [ none ↦ [] | some ids ↦ ids ]))
    ∷ str (join (text "; ") (map (λ c. c.filename) e.event.citations))
    ∷ int e.event.retrieval_limit
    ∷ int e.event.rerank_top_k
    ∷ int e.event.retrieved_chunk_count
    ∷ str e.event.model
    ∷ number_cell e.event.usage.prompt_tokens
    ∷ number_cell e.event.usage.completion_tokens
    ∷ number_cell e.event.usage.total_tokens
    ∷ []

optional_number-eq : (o : Option ℕ) → optional_number o ≡ number_cell o
optional_number-eq none = refl
optional_number-eq (some n) = refl

row-eq :
    {F : Type 0} (format_utc : ℕ → Text) (e : StoredEvent F)
    → event_row format_utc e ≡ cells format_utc e
unfolding event_row join_values
row-eq format_utc e =
    rw
      (
        ← (optional_number-eq e.event.usage.prompt_tokens),
        ← (optional_number-eq e.event.usage.completion_tokens),
        ← (optional_number-eq e.event.usage.total_tokens),
      )
      refl

rows-eq :
    {F : Type 0} (format_utc : ℕ → Text) (write_row : List Cell → Text)
    (events : List (StoredEvent F))
    → write_rows format_utc write_row events ≡ lines write_row (map (cells format_utc) events)
unfolding write_rows
rows-eq format_utc write_row [] = refl
rows-eq format_utc write_row (e ∷ events) =
    rw (write_rows, row-eq format_utc e, rows-eq format_utc write_row events) refl

csv-eq :
    {F : Type 0} (format_utc : ℕ → Text) (write_row : List Cell → Text)
    (events : List (StoredEvent F))
    → build_chat_audit_csv format_utc write_row events
      ≡ lines write_row (columns ∷ map (cells format_utc) events)
unfolding build_chat_audit_csv
csv-eq format_utc write_row events =
    ap (λ t. write_row csv_fieldnames ++ t) (rows-eq format_utc write_row events)

module _ {F : Type 0} (crypto : Crypto) (settings : AuthSettings) (lower : Text → Text)
    (now : ℕ) where
  -- A listing that is returned is returned to a request whose context has the admin role. It shows
  -- at most `limit` events, the latest first, all of the workspace of that context and all with what
  -- the query asks for: the request, the document, the times, and the words in the question or the
  -- preview. Its total is their number; and an export by the same request is a line of the column
  -- names and a line of the cells of each of just these events.
  pub list-Shown :
      (format_utc : ℕ → Text) (write_row : List Cell → Text) (request : Request) (q : AuditQuery)
      (log : List (StoredEvent F)) (response : ChatAuditEventListResponse F)
      → list_chat_audit_events crypto settings lower now request q log ≡ ok response
      → (context : WorkspaceContext) × (require_workspace_context crypto settings lower now request
          ≡ ok context)
        × (context.role ≡ admin_role)
        × (length response.events ≤ q.limit)
        × All
            (λ e. (e.event.workspace_id ≡ context.workspace_id) × Asked lower (asked_filters q) e)
            response.events
        × IsSorted latest_first response.events
        × (response.total ≡ length response.events)
        × (export_chat_audit_events crypto settings lower now format_utc write_row request q log
            ≡ ok (lines write_row (columns ∷ map (cells format_utc) response.events)))
  unfolding list_chat_audit_events export_chat_audit_events build_chat_audit_filters
  list-Shown format_utc write_row request q log response h =
      let (context, admitted, e) =
        bind-eq-ok (require_admin_workspace_context crypto settings lower now request) _ h in
      let (role, run) = admin-role crypto settings lower now request context admitted in
      let (few, shown, latest) =
        list_chat_events_lem lower context.workspace_id (build_chat_audit_filters q) log in
      rw (← ok-injective e) (
        context,
        run,
        role,
        few,
        All-mono (λ e (own, passed). (own, matches_filters-Asked lower (asked_filters q) e passed))
            _ shown,
        latest,
        refl,
        bind-of-ok _ _ admitted ∙ ap ok (csv-eq format_utc write_row _),
      )
