-- ===== src/Documents/Router/Listing.antt =====
-- Which documents a listing shows.
use doc_search_ai.Documents.Store.Listing.{list_documents_lem}
use doc_search_ai.Documents.Router.{is_document_visible, keep_visible, list_visible}
use doc_search_ai.Documents.Store.{Records, list_documents, newest_first}
use doc_search_ai.Documents.Models.{DocumentRecord, DocumentListResponse}
use doc_search_ai.Documents.Security.{
  ensure_document_security_level_allowed, allowed_document_security_levels,
}
use doc_search_ai.Documents.Security.Levels.{IsSupported, validate_of_IsSupported}
use doc_search_ai.Documents.Router.Levels.{Leveled}
use doc_search_ai.Auth.Models.{WorkspaceContext}
use doc_search_ai.Common.{
  ◌≡◌, refl, ok, ℕ, filter, length, Bool, All, Bool-cases, ◌∷◌, All-take, true, inl, sorted-All,
  ok-injective, inr, All-filter, sym, [], ◌∙◌, All-filter_both,
}
use doc_search_ai.Text.{Text, contains}

-- The level is open to the caller's role.
abbrev pub opened : WorkspaceContext → DocumentRecord → Bool
opened context r = contains (allowed_document_security_levels context.role) r.security_level

visible-opened :
    (context : WorkspaceContext) (r : DocumentRecord)
    → IsSupported r.security_level
    → is_document_visible context r ≡ ok (opened context r)
unfolding is_document_visible ensure_document_security_level_allowed
visible-opened context r supported =
    let valid = validate_of_IsSupported r.security_level supported in
    elim (Bool-cases (opened context r)) [
      | inl e ↦ rw (is_document_visible, ensure_document_security_level_allowed, valid, e) refl
      | inr e ↦ rw (is_document_visible, ensure_document_security_level_allowed, valid, e) refl
    ]

keep_visible-filter :
    (context : WorkspaceContext) (l : Records)
    → Leveled l
    → keep_visible context l ≡ ok (filter (opened context) l)
unfolding keep_visible filter
keep_visible-filter context [] h = refl
keep_visible-filter context (r ∷ l) h = elim (Bool-cases (opened context r)) [
  | inl e ↦
      rw (keep_visible, visible-opened context r h.0, keep_visible-filter context l h.1, filter, e)
        refl
  | inr e ↦
      rw (keep_visible, visible-opened context r h.0, keep_visible-filter context l h.1, filter, e)
        refl
]

sorted-Leveled :
    (ws : Text) (limit : ℕ) (l : Records) → Leveled l → Leveled (list_documents ws limit l)
unfolding list_documents
sorted-Leveled ws limit l h = All-take _ limit _ (sorted-All newest_first _ _ (All-filter _ _ l h))

-- With supported levels in the store, a listing succeeds, and shows, of the newest `limit` documents
-- of the caller's workspace, exactly those whose level is open to the role, counted by `total`.
pub list_visible-filter :
    (context : WorkspaceContext) (limit : ℕ) (records : Records)
    → Leveled records
    → list_visible context limit records
      ≡ ok (record {
        documents = filter (opened context) (list_documents context.workspace_id limit records);
        total =
            length (filter (opened context) (list_documents context.workspace_id limit records));
      })
unfolding list_visible
list_visible-filter context limit records h =
    let own = list_documents context.workspace_id limit records in
    rw
      (
        list_visible,
        keep_visible-filter context own (sorted-Leveled context.workspace_id limit records h),
      )
      refl

-- What a listing shows is of the caller's workspace and open to the role.
pub list_visible-isolated :
    (context : WorkspaceContext) (limit : ℕ) (records : Records) (shown : DocumentListResponse)
    → Leveled records
    → list_visible context limit records ≡ ok shown
    → All (λ r. (r.workspace_id ≡ context.workspace_id) × (opened context r ≡ true)) shown.documents
list_visible-isolated context limit records shown h run =
    let e = ok-injective (sym (list_visible-filter context limit records h) ∙ run) in
    let own = list_documents context.workspace_id limit records in
    rw (← e) (
      All-filter_both _ (opened context) own
        (list_documents_lem context.workspace_id limit records).1)
