-- ===== src/Examples/Files.antt =====
-- A document service in memory: a storage, a parser of UTF-8 files that are taken as they are, a
-- queue that only answers, and three requests.
use doc_search_ai.Documents.Security.{
  normalize_level, allowed_document_security_levels, validate_document_security_level,
  ensure_document_security_level_allowed,
}
use doc_search_ai.Documents.Router as Router
use doc_search_ai.Documents.Router.{not_found, text_or}
use doc_search_ai.Documents.Router.Uploads.{
  Accepted, found_as, too_large, upload-found, upload-refused, upload-succeeds,
}
use doc_search_ai.Documents.Router.Access.{missing, Untouchable-kept, delete-exact}
use doc_search_ai.Documents.Router.Failures.{failed_request-Keeps}
use doc_search_ai.Documents.Router.Levels.{Leveled, requests-Leveled}
use doc_search_ai.Documents.Router.Listing.{opened, list_visible-filter}
use doc_search_ai.Documents.Service.Failures.{Keeps}
use doc_search_ai.Documents.Service as Service
use doc_search_ai.Documents.Service.{
  DocumentService, ServiceState, record_of_response, upload_response, normalize_filename,
  normalize_content_type, guess_content_type, find_permitted, validate_document_size, enqueue_job,
  delete_vectors, default_content_type, first_job,
}
use doc_search_ai.Documents.Models.{DocumentUploadResponse, DocumentDeleteResponse}
use doc_search_ai.Documents.Store.{
  Records, get_document, same_document, list_documents, record_document,
}
use doc_search_ai.Documents.Store as Metadata
use doc_search_ai.Retrieval.Store as Vectors
use doc_search_ai.Storage.Minio.{MinioClient, minio_storage, put_document, storage_key_of}
use doc_search_ai.Parsers.{
  parse_document, default_parsers, find_parser, supports, build_parsed_document, normalize_text,
  replace_crlf, parse_extracted, Bytes, bad_zip_file,
}
use doc_search_ai.Examples.Client.{memory_client, memory_client-ClientLaws, stored, member_of_w1}
use doc_search_ai.Examples.Records.{two_documents}
use doc_search_ai.Retrieval.Filters.{Payload, build_qdrant_filter, satisfies}
use doc_search_ai.Steps.{Returns}
use doc_search_ai.Jobs.Base.{status_queued}
use doc_search_ai.Errors.{http, other}
use doc_search_ai.Text.{Text, text, text_eq, contains, strip, is_space, lstrip, rstrip, split_on}
use doc_search_ai.Common.{
  List, [], ◌∷◌, ◌++◌, ℕ, ok, raise, none, some, find, filter, not, ◌&&◌, refl, ◌≡◌, if◌then◌else◌,
  arith, true, all, length, any,
}

abbrev pub Files : Type 0
Files = List (Text × Bytes)

abbrev pub memory_minio : MinioClient Files
memory_minio = record {
  put_object = λ name bytes n type w. (ok tt, (name, bytes) ∷ w);
  get_object = λ name w. elim (find (λ (f : Text × Bytes). text_eq f.0 name) w) [
    | none ↦ (raise (other (text "NoSuchKey")), w)
    | some f ↦ (ok f.1, w)
  ];
  remove_object = λ name w. (ok tt, filter (λ (f : Text × Bytes). not (text_eq f.0 name)) w);
}

abbrev pub memory_service : DocumentService ℕ ℕ (List Payload) Files
memory_service = record {
  parse =
      parse_document (λ name. text ".txt") (λ t. t)
        (default_parsers (λ b. some b) (λ pattern with_text t. t) (λ b. none)
          (λ b. raise bad_zip_file));
  storage_service = minio_storage memory_minio;
  enqueue = λ job s. (
    record { job_id = job.job_id; status = status_queued; chunk_count = 0; failure_reason = none },
    s,
  );
  vector_client = memory_client;
  max_document_bytes = 10;
  guess_type = λ name. none;
  lower = λ t. t;
}

-- One workspace has a general document "a", whose file is stored.
abbrev pub one_file : ServiceState (List Payload) Files
one_file = record {
  vectors = stored;
  world = (text "a", text "hello") ∷ [];
  records = two_documents;
}

abbrev pub new_response : DocumentUploadResponse
new_response = record {
  document_id = text "d";
  workspace_id = text "w1";
  workspace_name = text "w1";
  uploaded_by_employee_id = none;
  security_level = text "internal";
  filename = text "document";
  parser = text "text";
  character_count = 2;
  text_preview = text "hi";
  storage_key = text "w1/d/document";
  indexing_job_id = text "j";
  indexing_status = text "queued";
  indexing_error = none;
  chunk_count = 0;
}

abbrev pub after_upload : ServiceState (List Payload) Files
after_upload = record {
  vectors = stored;
  world = (text "w1/d/document", text "hi") ∷ (text "a", text "hello") ∷ [];
  records = two_documents ++ record_of_response new_response 7 ∷ [];
}

uploading :
    Router.upload memory_service
      (text "d")
      (text "j")
      7
      member_of_w1
      none
      none
      (text "hi")
      (text " internal")
      one_file
    ≡ (ok new_response, after_upload)
unfolding Router.upload validate_document_security_level contains text_eq strip is_space
    ensure_document_security_level_allowed allowed_document_security_levels Service.upload_document
    validate_document_size parse_document find_parser find supports parse_extracted
    build_parsed_document normalize_text replace_crlf filter text_or normalize_level enqueue_job
    guess_content_type normalize_content_type normalize_filename record_of_response upload_response
    record_document lstrip rstrip split_on put_document storage_key_of
uploading = refl

upload-found_example :
    Accepted memory_service (text "d") member_of_w1 none (text "hi") (text " internal") new_response
    × (get_document (text "w1") (text "d") after_upload.records ≡ (
        if text_eq (text "w1") (text "w1") && text_eq (text "d") (text "d")
        then some (found_as new_response 7)
        else get_document (text "w1") (text "d") one_file.records))
upload-found_example =
    upload-found memory_service (text "d") (text "j") 7 member_of_w1 none none (text "hi")
      (text " internal") one_file new_response after_upload (text "w1") (text "d") uploading

upload-refused_example :
    Router.upload memory_service
      (text "d")
      (text "j")
      7
      member_of_w1
      none
      none
      (text "eleven char")
      (text "general")
      one_file
    ≡ (raise (http 413 (text "DOCUMENT_TOO_LARGE")), one_file)
unfolding contains text_eq normalize_level strip is_space allowed_document_security_levels
upload-refused_example =
    upload-refused memory_service (text "d") (text "j") 7 member_of_w1 none none
      (text "eleven char") (text "general") one_file (http 413 (text "DOCUMENT_TOO_LARGE"))
      (too_large refl refl (omega arith))

upload-succeeds_example : Returns (
    Router.upload memory_service
      (text "d")
      (text "j")
      7
      member_of_w1
      none
      none
      (text "hi")
      (text "")
      one_file)
unfolding contains text_eq strip is_space allowed_document_security_levels parse_document
    find_parser find supports parse_extracted build_parsed_document normalize_text replace_crlf
    text_or normalize_level guess_content_type normalize_content_type normalize_filename lstrip
    rstrip split_on put_document storage_key_of
upload-succeeds_example =
    upload-succeeds memory_service (text "d") (text "j") 7 member_of_w1 none none (text "hi")
      (text "") one_file
      (record {
        parser_name = text "text";
        text = text "hi";
        preview = text "hi";
        character_count = 2;
      })
      (text "w1/d/document") ((text "w1/d/document", text "hi") ∷ (text "a", text "hello") ∷ [])
      refl refl (omega arith) refl refl

failed_request-Keeps_example :
    Keeps two_documents (
      Router.upload memory_service
        (text "d")
        (text "j")
        7
        member_of_w1
        none
        none
        (text "hi")
        (text "secret")
        one_file)
    × Keeps two_documents (Router.delete memory_service member_of_w1 (text "d") one_file)
    × Keeps two_documents
        (Router.reindex memory_service (text "j") member_of_w1 (text "d") one_file)
failed_request-Keeps_example =
    failed_request-Keeps memory_service (text "d") (text "j") 7 member_of_w1 none none (text "hi")
      (text "secret") one_file

requests-Leveled_example :
    Leveled
      (Router.upload memory_service
        (text "a")
        (text "j")
        7
        member_of_w1
        none
        none
        (text "hi")
        (text "general")
        one_file).1.records
    × Leveled (Router.delete memory_service member_of_w1 (text "a") one_file).1.records
    × Leveled (Router.reindex memory_service (text "j") member_of_w1 (text "a") one_file).1.records
unfolding contains text_eq
requests-Leveled_example =
    requests-Leveled memory_service (text "a") (text "j") 7 member_of_w1 none none (text "hi")
      (text "general") one_file (refl, (refl, tt))

-- A document of another workspace.
Untouchable-kept_example :
    (Router.delete memory_service member_of_w1 (text "b") one_file ≡ (raise not_found, one_file))
    × (Router.reindex memory_service (text "j") member_of_w1 (text "b") one_file
        ≡ (raise not_found, one_file))
unfolding get_document find text_eq
Untouchable-kept_example =
    Untouchable-kept memory_service (text "j") member_of_w1 (text "b") one_file not_found
      (missing refl)

abbrev pub after_delete : ServiceState (List Payload) Files
after_delete = record {
  vectors =
      filter (λ p. not (text_eq p.workspace_id (text "w1") && text_eq p.document_id (text "a")))
        stored;
  world = [];
  records = filter (λ r. not (same_document (text "w1") (text "a") r)) two_documents;
}

abbrev pub deleted_a : DocumentDeleteResponse
deleted_a = record { document_id = text "a"; workspace_id = text "w1"; deleted = true }

deleting :
    Router.delete memory_service member_of_w1 (text "a") one_file ≡ (ok deleted_a, after_delete)
unfolding Router.delete Service.delete_document find_permitted delete_vectors get_document find
    text_eq ensure_document_security_level_allowed validate_document_security_level normalize_level
    strip lstrip rstrip is_space contains allowed_document_security_levels filter
    Vectors.delete_document satisfies build_qdrant_filter Metadata.delete_document all any
deleting = refl

delete-exact_example :
    (get_document (text "w1") (text "a") after_delete.records ≡ (
      if text_eq (text "w1") (text "w1") && text_eq (text "a") (text "a")
      then none
      else get_document (text "w1") (text "a") two_documents))
    × (after_delete.vectors
        ≡ filter
            (λ p. not (text_eq p.workspace_id (text "w1") && text_eq p.document_id (text "a")))
            stored)
delete-exact_example =
    delete-exact memory_service memory_client-ClientLaws member_of_w1 (text "a") one_file
      after_delete deleted_a (text "w1") (text "a") deleting

list_visible-filter_example :
    Router.list_visible member_of_w1 5 two_documents
    ≡ ok (record {
      documents = filter (opened member_of_w1) (list_documents (text "w1") 5 two_documents);
      total = length (filter (opened member_of_w1) (list_documents (text "w1") 5 two_documents));
    })
unfolding contains text_eq
list_visible-filter_example = list_visible-filter member_of_w1 5 two_documents (refl, (refl, tt))
