-- ===== src/Examples/Parsing.antt =====
-- Parsing, embedding and indexing at concrete inputs.
use doc_search_ai.Parsers.{parse_document, default_parsers, uncaught, bad_zip_file}
use doc_search_ai.Parsers.Texts.{IsGood, parse_document-IsGood}
use doc_search_ai.Indexing.Embedder.{
  EmbeddingBody, object, dict, int_index, parse_embedding_response, place_all, place, free_index,
  read_vector, read_values, set_at,
}
use doc_search_ai.Indexing.Embedder.Vectors.{Answered, items_of, parse_embedding-ordered}
use doc_search_ai.Indexing.Pipeline.{IndexingPipeline, run}
use doc_search_ai.Indexing.Pipeline.Runs.{run_sound, OfFile}
use doc_search_ai.Retrieval.Upsert.{UpsertLaws}
use doc_search_ai.Retrieval.Store.{QdrantClient}
use doc_search_ai.Retrieval.Filters.{Payload, satisfies}
use doc_search_ai.Storage.Minio.{minio_storage}
use doc_search_ai.Jobs.Base.{IndexDocumentJob}
use doc_search_ai.Examples.Files.{Files, memory_minio}
use doc_search_ai.Examples.Client.{stored}
use doc_search_ai.Text.{text}
use doc_search_ai.Common.{
  List, [], ◌∷◌, ◌++◌, ℕ, ok, raise, none, some, map, take, filter, not, length, All, All-append,
  All-map, refl, ◌≡◌, ◌⊎◌, inl, inr, any, ok-injective,
}

-- A DOCX file that is encrypted.
parse_document-IsGood_example : IsGood (raise (uncaught (text "RuntimeError"))) (
    parse_document
      (λ name. text ".DOCX")
      (λ t. text ".docx")
      (default_parsers
        (λ b. some b)
        (λ pattern with_text t. t)
        (λ b. none)
        (λ b. raise (uncaught (text "RuntimeError"))))
      (text "a.DOCX")
      [])
parse_document-IsGood_example =
    parse_document-IsGood (λ name. text ".DOCX") (λ t. text ".docx") (λ b. some b)
      (λ pattern with_text t. t) (λ b. none) (λ b. raise (uncaught (text "RuntimeError")))
      (text "a.DOCX") []

-- Two vectors, the second one first.
abbrev swapped : EmbeddingBody ℕ
swapped =
    object (
      some (dict (int_index 1) (some (some 7 ∷ [])) ∷ dict (int_index 0) (some (some 5 ∷ [])) ∷ []))

abbrev in_order : List (List ℕ)
in_order = (5 ∷ []) ∷ (7 ∷ []) ∷ []

parse_embedding-ordered_example :
    (length in_order ≡ 2)
    × All (λ v. length v ≡ 1) in_order
    × All (Answered in_order) (items_of swapped)
unfolding parse_embedding_response place_all place free_index read_vector read_values set_at any
parse_embedding-ordered_example = parse_embedding-ordered swapped 2 1 in_order refl

abbrev vector_client : QdrantClient (List ℕ) ℕ (List Payload)
vector_client = record {
  query_points = λ db v f n.
      ok (take n (map (λ p. record { payload = p; score = 5 }) (filter (satisfies f) db)));
  scroll = λ db f n. ok (take n (filter (satisfies f) db));
  upsert = λ db points. ok (db ++ map (λ p. p.payload) points);
  delete = λ db f. ok (filter (λ p. not (satisfies f p)) db);
  payloads = λ db. db;
}

vector_client-UpsertLaws : UpsertLaws vector_client
vector_client-UpsertLaws = record {
  upsert_sound = λ P db db' points old new e.
      rw (← (ok-injective e))
        (All-append P db (map (λ p. p.payload) points) old (All-map P (λ p. p.payload) points new));
}

abbrev memory_pipeline : IndexingPipeline ℕ (List Payload) Files
memory_pipeline = record {
  storage_service = minio_storage memory_minio;
  parse =
      parse_document (λ name. text ".txt") (λ t. t)
        (default_parsers (λ b. some b) (λ pattern with_text t. t) (λ b. none)
          (λ b. raise bad_zip_file));
  chunker = record { max_characters = 10; overlap_characters = 2 };
  embedder = record { embed_texts = λ texts. ok (map (λ t. length t ∷ []) texts) };
  vector_client = vector_client;
  uuid5 = λ name. name;
  decimal = λ n. n ∷ [];
}

abbrev job_of_w1 : IndexDocumentJob
job_of_w1 = record {
  job_id = text "j";
  workspace_id = text "w1";
  workspace_name = text "w1";
  document_id = text "a";
  filename = text "a.txt";
  content_type = text "text/plain";
  storage_key = text "a";
  uploaded_by_employee_id = none;
  security_level = text "general";
  attempt = 1;
  max_attempts = 3;
}

-- A stored payload, or one of the job's workspace.
abbrev Allowed : Payload → Type 0
Allowed p = (p.workspace_id ≡ text "w1") ⊎ (p.workspace_id ≡ text "w2")

run_sound_example :
    All
      (λ p. Allowed p ⊎ OfFile memory_pipeline job_of_w1 ((text "a", text "hello") ∷ []) p)
      (run memory_pipeline job_of_w1 (stored, (text "a", text "hello") ∷ [])).1.0
run_sound_example =
    run_sound memory_pipeline vector_client-UpsertLaws Allowed job_of_w1
      (stored, (text "a", text "hello") ∷ []) (inl refl, (inl refl, (inr refl, tt)))
