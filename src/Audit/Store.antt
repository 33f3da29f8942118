-- ===== src/Audit/Store.antt =====
-- backend/app/audit/store.py: `InMemoryAuditLogStore`, and the filters of audit/models.py. The id,
-- the type and the time of an event, which its constructor sets, stand beside what the chat service writes;
-- times are numbers of time units since an epoch. `lower` is `str.lower`.
pub mod Listing
pub mod Asked
use doc_search_ai.Text.{Text, contains, text_eq, text}
use doc_search_ai.Common.{
  Option, List, Bool, ℕ, true, ◌∷◌, ◌++◌, leb, take, false, if◌then◌else◌, ◌&&◌, [], sorted, none,
  some, ◌==◌, ◌||◌, filter, any,
}
use doc_search_ai.Chat.Service.{ChatAuditEvent, AuditCitation}

pub record StoredEvent (F : Type 0) : Type 0 where
  pub event : ChatAuditEvent F
  pub event_id : Text
  pub event_type : Text
  pub occurred_at : ℕ

pub record ChatAuditEventFilters : Type 0 where
  pub query : Option Text
  pub document_id : Option Text
  pub request_id : Option Text
  pub event_type : Option Text
  pub occurred_from : Option ℕ
  pub occurred_to : Option ℕ
  pub limit : ℕ

-- `not value or test(value)`: `None` and the empty text ask for nothing.
abbrev pub asks : Option Text → (Text → Bool) → Bool
asks none test = true
asks (some []) test = true
asks (some (c ∷ s)) test = test (c ∷ s)

abbrev pub asks_time : Option ℕ → (ℕ → Bool) → Bool
asks_time none test = true
asks_time (some t) test = test t

unfoldable pub starts_with : Text → Text → Bool
starts_with [] s = true
starts_with (c ∷ t) [] = false
starts_with (c ∷ t) (d ∷ s) = let rest = starts_with t s in if c == d then rest else false

-- `t in s`
unfoldable pub is_substring : Text → Text → Bool
is_substring t [] = starts_with t []
is_substring t (d ∷ s) = let rest = is_substring t s in if starts_with t (d ∷ s) then true else rest

module _ {F : Type 0} where
  unfoldable pub has_document_id : ChatAuditEvent F → Text → Bool
  has_document_id event document_id =
      contains (elim event.document_ids [ none ↦ [] | some ids ↦ ids ]) document_id
      || any (λ (c : AuditCitation F). text_eq c.document_id document_id) event.citations

  unfoldable pub matches_filters : (Text → Text) → ChatAuditEventFilters → StoredEvent F → Bool
  matches_filters lower filters e =
      asks filters.event_type (text_eq e.event_type)
      && asks filters.request_id (text_eq e.event.request_id)
      && asks filters.document_id (has_document_id e.event)
      && asks_time filters.occurred_from (λ t. leb t e.occurred_at)
      && asks_time filters.occurred_to (λ t. leb e.occurred_at t)
      && asks filters.query (λ q.
        is_substring (lower q) (lower (e.event.question ++ text "\n" ++ e.event.answer_preview)))

  unfoldable pub record_chat_event : StoredEvent F → List (StoredEvent F) → List (StoredEvent F)
  record_chat_event event events = events ++ event ∷ []

  abbrev pub latest_first : StoredEvent F → StoredEvent F → Bool
  latest_first a b = leb b.occurred_at a.occurred_at

  unfoldable pub list_chat_events :
      (Text → Text) → Text → ChatAuditEventFilters → List (StoredEvent F) → List (StoredEvent F)
  list_chat_events lower workspace_id filters events = take filters.limit (
      sorted latest_first (
        filter (λ e. text_eq e.event.workspace_id workspace_id && matches_filters lower filters e)
          events))
