-- ===== src/Audit/Store/Listing.antt =====
-- What a listing of the audit log shows.
use mathlib.Core.List.{Perm}
use doc_search_ai.Common.{
  ◌≡◌, false, true, List, arith, length, ◌≤◌, All, IsSorted, ◌&&◌, length-take-le, All-take,
  sorted-All, All-filter_of_test, IsSorted-take, sorted-IsSorted, filter, take_of_length-le, sorted,
  length-sorted, length-filter-le, sorted-perm,
}
use doc_search_ai.Text.{Text, text_eq, text_eq_iff}
use doc_search_ai.Audit.Store.{
  StoredEvent, list_chat_events, latest_first, ChatAuditEventFilters, matches_filters,
}

module _ {F : Type 0} where
  latest_first_total : (a b : StoredEvent F) → latest_first a b ≡ false → latest_first b a ≡ true
  latest_first_total a b h = ground arith

  latest_first_trans :
      (a b c : StoredEvent F)
      → latest_first a b ≡ true
      → latest_first b c ≡ true
      → latest_first a c ≡ true
  latest_first_trans a b c h k = ground arith

  -- A listing shows at most `limit` events, the latest first, all of the workspace and all with
  -- what the filters ask for.
  pub list_chat_events_lem :
      (lower : Text → Text) (ws : Text) (filters : ChatAuditEventFilters)
      (events : List (StoredEvent F))
      → (length (list_chat_events lower ws filters events) ≤ filters.limit)
        × All
            (λ e. (e.event.workspace_id ≡ ws) × (matches_filters lower filters e ≡ true))
            (list_chat_events lower ws filters events)
        × IsSorted latest_first (list_chat_events lower ws filters events)
  unfolding list_chat_events
  list_chat_events_lem lower ws filters events = (
    length-take-le filters.limit _,
    All-take _ filters.limit _ (sorted-All latest_first _ _ (All-filter_of_test _ _ passed events)),
    IsSorted-take latest_first filters.limit _
        (sorted-IsSorted latest_first latest_first_total latest_first_trans _),
  )
    where
      passed :
          (e : StoredEvent F)
          → (text_eq e.event.workspace_id ws && matches_filters lower filters e) ≡ true
          → (e.event.workspace_id ≡ ws) × (matches_filters lower filters e ≡ true)
      passed e h = ((text_eq_iff e.event.workspace_id ws).0 (ground arith), ground arith)

  -- With room for all of them, a listing has exactly the events of the workspace that the filters
  -- ask for, each as often as it was recorded.
  pub list_chat_events-perm :
      (lower : Text → Text) (ws : Text) (filters : ChatAuditEventFilters)
      (events : List (StoredEvent F))
      → length events ≤ filters.limit
      → Perm
          (list_chat_events lower ws filters events)
          (filter (λ e. text_eq e.event.workspace_id ws && matches_filters lower filters e) events)
  unfolding list_chat_events
  list_chat_events-perm lower ws filters events room =
      let asked =
        λ (e : StoredEvent F). text_eq e.event.workspace_id ws && matches_filters lower filters e in
      let own = filter asked events in
      rw
        (take_of_length-le filters.limit (sorted latest_first own)
          (omega (arith, length-sorted latest_first own, length-filter-le asked events)))
        (sorted-perm latest_first own)
