-- ===== src/Documents/Store.antt =====
-- backend/app/documents/store.py: `InMemoryDocumentMetadataStore`. The state is `_records`; the
-- lock makes each method one step.
pub mod Lookup
pub mod Listing
use doc_search_ai.Documents.Models.{DocumentRecord}
use doc_search_ai.Text.{Text, text_eq}
use doc_search_ai.Common.{
  List, Bool, filter, Option, ℕ, not, find, leb, take, ◌&&◌, ◌++◌, sorted, ◌∷◌, [], none, some,
}

abbrev pub Records : Type 0
Records = List DocumentRecord

abbrev pub same_document : Text → Text → DocumentRecord → Bool
same_document workspace_id document_id r =
    text_eq r.workspace_id workspace_id && text_eq r.document_id document_id

unfoldable pub record_document : DocumentRecord → Records → Records
record_document r records =
    filter (λ c. not (same_document r.workspace_id r.document_id c)) records ++ r ∷ []

unfoldable pub get_document : Text → Text → Records → Option DocumentRecord
get_document workspace_id document_id records =
    find (same_document workspace_id document_id) records

unfoldable pub delete_document : Text → Text → Records → Option DocumentRecord × Records
delete_document workspace_id document_id records =
    elim (get_document workspace_id document_id records) [
      | none ↦ (none, records)
      | some deleted ↦
          (some deleted, filter (λ c. not (same_document workspace_id document_id c)) records)
    ]

abbrev pub newest_first : DocumentRecord → DocumentRecord → Bool
newest_first a b = leb b.uploaded_at a.uploaded_at

unfoldable pub list_documents : Text → ℕ → Records → List DocumentRecord
list_documents workspace_id limit records =
    take limit (sorted newest_first (filter (λ r. text_eq r.workspace_id workspace_id) records))
