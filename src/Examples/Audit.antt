-- ===== src/Examples/Audit.antt =====
-- A log of two workspaces, and a question about a document.
use doc_search_ai.Examples.Accounts.{lowercase, demo_settings, with_key, asking}
use doc_search_ai.Examples.Cipher.{toy_crypto}
use doc_search_ai.Audit.Router.Shown.{list-Shown, asked_filters, columns, cells, lines}
use doc_search_ai.Audit.Store.Asked.{Asked}
use doc_search_ai.Audit.Router.{
  AuditQuery, ChatAuditEventListResponse, list_chat_audit_events, export_chat_audit_events,
  build_chat_audit_filters,
}
use doc_search_ai.Audit.Export.{Cell, str, int}
use doc_search_ai.Auth.Models.{WorkspaceContext, admin_role}
use doc_search_ai.Auth.Router.{
  Request, context_from_api_key, require_workspace_context, require_admin_workspace_context,
}
use doc_search_ai.Audit.Store.{
  list_chat_events, is_substring, starts_with, has_document_id, StoredEvent, matches_filters,
  latest_first,
}
use doc_search_ai.Common.{
  ok, refl, map, ◌++◌, sorted, insert_sorted, filter, any, List, length, ℕ, some, ◌∷◌, none, ◌≤◌,
  [], All, ◌≡◌, IsSorted,
}
use doc_search_ai.Text.{Text, text, text_eq, contains}

abbrev logged : Text → ℕ → StoredEvent ℕ
logged workspace occurred_at = record {
  event = record {
    request_id = text "r";
    workspace_id = workspace;
    workspace_name = workspace;
    question = text "Hello";
    document_ids = some (text "a" ∷ []);
    retrieval_limit = 4;
    rerank_top_k = 2;
    retrieved_chunk_count = 0;
    model = text "m";
    answer_preview = text "hi";
    answer_character_count = 2;
    usage = record { prompt_tokens = none; completion_tokens = none; total_tokens = none };
    citations = [];
  };
  event_id = text "e";
  event_type = text "chat.answer.generated";
  occurred_at = occurred_at;
}

abbrev log : List (StoredEvent ℕ)
log = logged (text "w1") 1 ∷ logged (text "w2") 2 ∷ logged (text "w1") 3 ∷ []

abbrev about_a : AuditQuery
about_a = record {
  query = some (text "ell");
  document_id = some (text "a");
  request_id = none;
  occurred_from = some 1;
  occurred_to = none;
  limit = 5;
}

abbrev asks_for : Request
asks_for = with_key (text "k")

abbrev shown : ChatAuditEventListResponse ℕ
shown =
    let events = list_chat_events lowercase (text "w1") (build_chat_audit_filters about_a) log in
    record { events = events; total = length events }

admin_lists :
    list_chat_audit_events toy_crypto demo_settings lowercase 0 asks_for about_a log ≡ ok shown
unfolding list_chat_audit_events require_admin_workspace_context context_from_api_key text_eq
admin_lists = rw asking refl

shown_times : map (λ (e : StoredEvent ℕ). e.occurred_at) shown.events ≡ 3 ∷ 1 ∷ []
unfolding list_chat_events sorted insert_sorted filter text_eq matches_filters is_substring
    starts_with has_document_id contains any build_chat_audit_filters
shown_times = refl

abbrev write_cells : List Cell → Text
write_cells [] = text "\n"
write_cells (str s ∷ l) = s ++ 44 ∷ write_cells l
write_cells (int n ∷ l) = n ∷ 44 ∷ write_cells l

list-Shown_example :
    (context : WorkspaceContext) × (require_workspace_context toy_crypto demo_settings lowercase 0
        asks_for
      ≡ ok context)
    × (context.role ≡ admin_role)
    × (length shown.events ≤ 5)
    × All
        (λ e.
          (e.event.workspace_id ≡ context.workspace_id) × Asked lowercase (asked_filters about_a) e)
        shown.events
    × IsSorted latest_first shown.events
    × (shown.total ≡ length shown.events)
    × (export_chat_audit_events toy_crypto demo_settings lowercase 0
          (λ t. t ∷ [])
          write_cells
          asks_for
          about_a
          log
        ≡ ok (lines write_cells (columns ∷ map (cells (λ t. t ∷ [])) shown.events)))
list-Shown_example =
    list-Shown toy_crypto demo_settings lowercase 0 (λ t. t ∷ []) write_cells asks_for about_a log
      shown admin_lists
