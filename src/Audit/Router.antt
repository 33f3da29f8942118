-- ===== src/Audit/Router.antt =====
-- backend/app/audit/router.py: the two handlers, with the dependency that gives them the context of
-- an admin. The name of the exported file, which is a time, and the bounds that
-- FastAPI puts on the limit are left out; `lower` is `str.lower`.
pub mod Shown
use doc_search_ai.Audit.Store.{StoredEvent, ChatAuditEventFilters, list_chat_events}
use doc_search_ai.Audit.Export.{Cell, build_chat_audit_csv}
use doc_search_ai.Auth.Router.{Request, require_admin_workspace_context}
use doc_search_ai.Auth.Tokens.{Crypto}
use doc_search_ai.Auth.Service.{AuthSettings}
use doc_search_ai.Errors.{Raises}
use doc_search_ai.Text.{Text}
use doc_search_ai.Common.{List, Option, ℕ, none, ok, ◌>>=◌, length}

pub record AuditQuery : Type 0 where
  pub query : Option Text
  pub document_id : Option Text
  pub request_id : Option Text
  pub occurred_from : Option ℕ
  pub occurred_to : Option ℕ
  pub limit : ℕ

unfoldable pub build_chat_audit_filters : AuditQuery → ChatAuditEventFilters
build_chat_audit_filters q = record {
  query = q.query;
  document_id = q.document_id;
  request_id = q.request_id;
  event_type = none;
  occurred_from = q.occurred_from;
  occurred_to = q.occurred_to;
  limit = q.limit;
}

pub record ChatAuditEventListResponse (F : Type 0) : Type 0 where
  pub events : List (StoredEvent F)
  pub total : ℕ

module _ {F : Type 0} (crypto : Crypto) (settings : AuthSettings) (lower : Text → Text)
    (now : ℕ) where
  unfoldable pub list_chat_audit_events :
      Request → AuditQuery → List (StoredEvent F) → Raises (ChatAuditEventListResponse F)
  list_chat_audit_events request q log = do
    context ← require_admin_workspace_context crypto settings lower now request
    let events = list_chat_events lower context.workspace_id (build_chat_audit_filters q) log in
        ok (record { events = events; total = length events })

  unfoldable pub export_chat_audit_events :
      (ℕ → Text) → (List Cell → Text) → Request → AuditQuery → List (StoredEvent F) → Raises Text
  export_chat_audit_events format_utc write_row request q log = do
    context ← require_admin_workspace_context crypto settings lower now request
    let events = list_chat_events lower context.workspace_id (build_chat_audit_filters q) log in
        ok (build_chat_audit_csv format_utc write_row events)
