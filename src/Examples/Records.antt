-- ===== src/Examples/Records.antt =====
-- A metadata store with documents of two workspaces.
use doc_search_ai.Documents.Store.Listing.{listing_isolated}
use doc_search_ai.Documents.Models.{DocumentRecord}
use doc_search_ai.Common.{ℕ, ◌∷◌, ◌≢◌, none, [], ◌≡◌, true, false, sym}
use doc_search_ai.Documents.Store.{Records, list_documents, record_document, delete_document}
use doc_search_ai.Text.{Text, text_eq, text, text_eq_iff}

abbrev pub document : Text → Text → ℕ → DocumentRecord
document workspace id uploaded_at = record {
  document_id = id;
  workspace_id = workspace;
  workspace_name = workspace;
  uploaded_by_employee_id = none;
  security_level = text "general";
  filename = id;
  parser = text "text";
  character_count = 5;
  text_preview = text "hello";
  storage_key = id;
  indexing_job_id = id;
  indexing_status = text "queued";
  indexing_error = none;
  chunk_count = 0;
  uploaded_at = uploaded_at;
}

abbrev pub two_documents : Records
two_documents = document (text "w1") (text "a") 1 ∷ document (text "w2") (text "b") 2 ∷ []

other_workspace : text "w2" ≢ text "w1"
unfolding text_eq
other_workspace h =
    let e : true ≡ false = sym ((text_eq_iff (text "w2") (text "w1")).1 h) in absurd cc

listing_isolated_example :
    (list_documents
        (text "w1")
        5
        (record_document (document (text "w2") (text "d") 4) two_documents)
      ≡ list_documents (text "w1") 5 two_documents)
    × (list_documents (text "w1") 5 (delete_document (text "w2") (text "b") two_documents).1
        ≡ list_documents (text "w1") 5 two_documents)
listing_isolated_example =
    listing_isolated (text "w1") 5 (document (text "w2") (text "d") 4) (text "b") two_documents
      other_workspace
