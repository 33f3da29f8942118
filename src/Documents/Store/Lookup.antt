-- ===== src/Documents/Store/Lookup.antt =====
-- The store against its abstract view, a map from workspace and document to the record.
use doc_search_ai.Text.{Text, text_eq, text_eq_iff}
use doc_search_ai.Documents.Models.{DocumentRecord}
use doc_search_ai.Documents.Store.{
  get_document, record_document, delete_document, Records, same_document,
}
use doc_search_ai.Common.{
  ◌≡◌, refl, find, filter, Bool, ◌++◌, if◌then◌else◌, ◌∷◌, not, some, [], ◌&&◌, arith, none,
}

find-append_one :
    (p : DocumentRecord → Bool) (l : Records) (r : DocumentRecord)
    → find p (l ++ r ∷ [])
      ≡ elim (find p l) [ none ↦ (if p r then some r else none) | some a ↦ some a ]
unfolding find
find-append_one p [] r = refl
find-append_one p (x ∷ l) r = ground (arith, find-append_one p l r)

-- Dropping the records of one document hides that document, and no other.
find-without :
    (ws id ws' id' : Text) (l : Records)
    → find (same_document ws' id') (filter (λ c. not (same_document ws id c)) l)
      ≡ (if text_eq ws ws' && text_eq id id' then none else find (same_document ws' id') l)
unfolding find filter
find-without ws id ws' id' [] = ground arith
find-without ws id ws' id' (x ∷ l) = ground (
  arith,
  find-without ws id ws' id' l,
  text_eq_iff x.workspace_id ws,
  text_eq_iff x.workspace_id ws',
  text_eq_iff x.document_id id,
  text_eq_iff x.document_id id',
  text_eq_iff ws ws',
  text_eq_iff id id',
)

-- Recording a document makes it the one that is found under its workspace and its id, and changes
-- nothing of what is found elsewhere.
pub get-record :
    (ws id : Text) (r : DocumentRecord) (l : Records)
    → get_document ws id (record_document r l)
      ≡ (if same_document ws id r then some r else get_document ws id l)
unfolding get_document record_document
get-record ws id r l = ground (
  arith,
  find-append_one (same_document ws id)
      (filter (λ c. not (same_document r.workspace_id r.document_id c)) l) r,
  find-without r.workspace_id r.document_id ws id l,
)

-- After a deletion nothing is found under the workspace and the id, and elsewhere what was found
-- before.
pub get-delete :
    (ws id ws' id' : Text) (l : Records)
    → get_document ws' id' (delete_document ws id l).1
      ≡ (if text_eq ws ws' && text_eq id id' then none else get_document ws' id' l)
unfolding get_document delete_document
get-delete ws id ws' id' l =
    ground (arith, find-without ws id ws' id' l, text_eq_iff ws ws', text_eq_iff id id')
