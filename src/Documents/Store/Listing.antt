-- ===== src/Documents/Store/Listing.antt =====
-- What a listing contains, and in which order.
use doc_search_ai.Text.{Text, text_eq, text_eq_iff}
use doc_search_ai.Documents.Store.{
  list_documents, newest_first, Records, record_document, delete_document, same_document,
}
use doc_search_ai.Documents.Models.{DocumentRecord}
use mathlib.Core.List.{Perm, append-nil}
use doc_search_ai.Common.{
  ◌≡◌, refl, ℕ, filter, Bool, false, true, IsSorted, length, ◌++◌, arith, take, ◌≤◌, not, ◌∷◌, ◌≢◌,
  All, [], All-take, length-take, if◌then◌else◌, sorted, sorted-All, All-filter_of_test,
  sorted-IsSorted, take_of_length-le, ap, length-sorted, length-filter-le, sorted-perm,
  IsSorted-take,
}

newest_first_total : (a b : DocumentRecord) → newest_first a b ≡ false → newest_first b a ≡ true
newest_first_total a b h = ground arith

newest_first_trans :
    (a b c : DocumentRecord)
    → newest_first a b ≡ true
    → newest_first b c ≡ true
    → newest_first a c ≡ true
newest_first_trans a b c h k = ground arith

-- A listing has at most `limit` records, all of the workspace asked for, the newest first.
pub list_documents_lem :
    (ws : Text) (limit : ℕ) (l : Records)
    → (length (list_documents ws limit l) ≤ limit)
      × All (λ r. r.workspace_id ≡ ws) (list_documents ws limit l)
      × IsSorted newest_first (list_documents ws limit l)
unfolding list_documents
list_documents_lem ws limit l = (
  omega
      (arith, length-take limit (sorted newest_first (filter (λ r. text_eq r.workspace_id ws) l))),
  All-take _ limit _ (
      sorted-All newest_first _ _
        (All-filter_of_test _ (λ r. text_eq r.workspace_id ws) (λ r e. (text_eq_iff _ _).0 e) l)),
  IsSorted-take newest_first limit _
      (sorted-IsSorted newest_first newest_first_total newest_first_trans _),
)

-- With room for all of them, a listing has exactly the records of the workspace.
pub list_documents-perm :
    (ws : Text) (limit : ℕ) (l : Records)
    → length l ≤ limit
    → Perm (list_documents ws limit l) (filter (λ r. text_eq r.workspace_id ws) l)
unfolding list_documents
list_documents-perm ws limit l h =
    let own = filter (λ (r : DocumentRecord). text_eq r.workspace_id ws) l in
    rw
      (take_of_length-le limit (sorted newest_first own) (
        omega (
          arith,
          length-sorted newest_first own,
          length-filter-le (λ (r : DocumentRecord). text_eq r.workspace_id ws) l,
        )))
      (sorted-perm newest_first own)

filter-filter_other :
    (ws ws' id : Text) (l : Records)
    → text_eq ws ws' ≡ false
    → filter (λ r. text_eq r.workspace_id ws') (filter (λ c. not (same_document ws id c)) l)
      ≡ filter (λ r. text_eq r.workspace_id ws') l
unfolding filter
filter-filter_other ws ws' id [] h = refl
filter-filter_other ws ws' id (x ∷ l) h = ground (
  arith,
  filter-filter_other ws ws' id l,
  text_eq_iff x.workspace_id ws,
  text_eq_iff x.workspace_id ws',
  text_eq_iff ws ws',
)

filter-append_one :
    (p : DocumentRecord → Bool) (l : Records) (r : DocumentRecord)
    → filter p (l ++ r ∷ []) ≡ filter p l ++ (if p r then r ∷ [] else [])
unfolding filter
filter-append_one p [] r = ground arith
filter-append_one p (x ∷ l) r = ground (arith, filter-append_one p l r)

own_after_record :
    (ws : Text) (r : DocumentRecord) (l : Records)
    → text_eq r.workspace_id ws ≡ false
    → filter (λ r. text_eq r.workspace_id ws) (record_document r l)
      ≡ filter (λ r. text_eq r.workspace_id ws) l
unfolding record_document
own_after_record ws r l ne =
    rw (filter-append_one, ne, append-nil)
      (filter-filter_other r.workspace_id ws r.document_id l ne)

own_after_delete :
    (ws ws' id : Text) (l : Records)
    → text_eq ws' ws ≡ false
    → filter (λ r. text_eq r.workspace_id ws) (delete_document ws' id l).1
      ≡ filter (λ r. text_eq r.workspace_id ws) l
unfolding delete_document
own_after_delete ws ws' id l ne = ground (arith, filter-filter_other ws' ws id l)

-- What is recorded or deleted in one workspace changes no listing of another.
pub listing_isolated :
    (ws : Text) (limit : ℕ) (r : DocumentRecord) (id : Text) (l : Records)
    → r.workspace_id ≢ ws
    → (list_documents ws limit (record_document r l) ≡ list_documents ws limit l)
      × (list_documents ws limit (delete_document r.workspace_id id l).1
          ≡ list_documents ws limit l)
unfolding list_documents
listing_isolated ws limit r id l h =
    let ne : text_eq r.workspace_id ws ≡ false = ground (arith, text_eq_iff r.workspace_id ws) in
    (
      ap (λ own. take limit (sorted newest_first own)) (own_after_record ws r l ne),
      ap (λ own. take limit (sorted newest_first own)) (own_after_delete ws r.workspace_id id l ne),
    )
