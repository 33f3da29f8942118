-- ===== src/Retrieval/Upsert.antt =====
-- backend/app/retrieval/qdrant_store.py: `upsert_chunks`. Parameters: `uuid5 name` is
-- `str(uuid5(NAMESPACE_URL, name))`, `decimal` is `str` of an int, and the client.
use doc_search_ai.Retrieval.Store.{QdrantClient, Point}
use doc_search_ai.Retrieval.Filters.{Payload}
use doc_search_ai.Jobs.Base.{IndexDocumentJob}
use doc_search_ai.Errors.{Raises, value_error}
use doc_search_ai.Text.{Text, text}
use doc_search_ai.Common.{
  ◌≡◌, ℕ, suc, List, [], ◌∷◌, ◌++◌, All, length, some, ok, raise, ◌>>=◌, bind-eq-ok, ok-injective,
  ◌≤◌, ◌+◌, get_elem?, ◌∙◌, arith, map, refl, ap, All-mono, length-map,
}

abbrev pub chunk_payload : IndexDocumentJob → Text → ℕ → Text → Payload
chunk_payload job parser_name index chunk = record {
  workspace_id = job.workspace_id;
  workspace_name = job.workspace_name;
  document_id = job.document_id;
  uploaded_by_employee_id = job.uploaded_by_employee_id;
  security_level = some job.security_level;
  filename = job.filename;
  parser = parser_name;
  chunk_index = index;
  chunk_text = chunk;
}

module _ {Vector : Type 0} (uuid5 : Text → Text) (decimal : ℕ → Text) where
  -- The loop over `zip(chunks, embeddings, strict=True)`, from an index on.
  unfoldable pub build_points :
      IndexDocumentJob → Text → ℕ → List Text → List Vector → Raises (List (Point Vector))
  build_points job parser_name index [] [] = ok []
  build_points job parser_name index [] (e ∷ embeddings) = raise value_error
  build_points job parser_name index (c ∷ chunks) [] = raise value_error
  build_points job parser_name index (c ∷ chunks) (e ∷ embeddings) = do
    points ← build_points job parser_name (suc index) chunks embeddings
    ok (
        record {
          id = uuid5 (job.document_id ++ (text ":" ++ decimal index));
          vector = e;
          payload = chunk_payload job parser_name index c;
        }
        ∷ points)

  unfoldable pub upsert_chunks :
      {F Db : Type 0}
      → QdrantClient Vector F Db
      → IndexDocumentJob
      → Text
      → List Text
      → List Vector
      → Db
      → Raises Db
  upsert_chunks client job parser_name [] embeddings db = ok db
  upsert_chunks client job parser_name (c ∷ chunks) embeddings db = do
    points ← build_points job parser_name 0 (c ∷ chunks) embeddings
    client.upsert db points

  -- The points carry the chunks in their order, numbered from the index on.
  pub build_points-payloads :
      (job : IndexDocumentJob) (parser_name : Text) (index : ℕ) (chunks : List Text)
      (embeddings : List Vector) (points : List (Point Vector))
      → build_points job parser_name index chunks embeddings ≡ ok points
      → (map (λ p. p.payload.chunk_text) points ≡ chunks)
        × (map (λ p. p.vector) points ≡ embeddings)
        × All
            (λ p.
              (i : ℕ) × (c : Text) × (get_elem? chunks i ≡ some c)
              × (p.payload ≡ chunk_payload job parser_name (index + i) c))
            points
  unfolding build_points
  build_points-payloads job name index [] [] points h = rw (← (ok-injective h)) (refl, refl, tt)
  build_points-payloads job name index [] (e ∷ embeddings) points h = absurd cc
  build_points-payloads job name index (c ∷ chunks) [] points h = absurd cc
  build_points-payloads job name index (c ∷ chunks) (e ∷ embeddings) points h =
      let (rest, run, k) = bind-eq-ok (build_points job name (suc index) chunks embeddings) _ h in
      let (texts, vectors, all) =
        build_points-payloads job name (suc index) chunks embeddings rest run in
      rw (← (ok-injective k)) (
        ap (λ t. c ∷ t) texts,
        ap (λ t. e ∷ t) vectors,
        (
          (0, c, refl, ap (λ n. chunk_payload job name n c) (omega arith)),
          All-mono
              (λ p (i, d, at, same).
                (suc i, d, at, same ∙ ap (λ n. chunk_payload job name n d) (omega arith)))
              rest all,
        ),
      )

-- What Qdrant documents of an upsert: a point is there afterwards only if it was there before or is
-- one of the points given.
pub record UpsertLaws {Vector F Db : Type 0} (client : QdrantClient Vector F Db) : Type 1 where
  pub upsert_sound :
      (P : Payload → Type 0) (db db' : Db) (points : List (Point Vector))
      → All P (client.payloads db)
      → All (λ p. P p.payload) points
      → client.upsert db points ≡ ok db'
      → All P (client.payloads db')

-- A payload of one of the chunks, with its number, and with the workspace, the document, the level
-- and the file of the job.
abbrev pub OfJob : IndexDocumentJob → Text → List Text → Payload → Type 0
OfJob job parser_name chunks p =
    (i : ℕ) × (c : Text) × (get_elem? chunks i ≡ some c)
    × (p ≡ record {
      workspace_id = job.workspace_id;
      workspace_name = job.workspace_name;
      document_id = job.document_id;
      uploaded_by_employee_id = job.uploaded_by_employee_id;
      security_level = some job.security_level;
      filename = job.filename;
      parser = parser_name;
      chunk_index = i;
      chunk_text = c;
    })

module _ {Vector F Db : Type 0} (client : QdrantClient Vector F Db) (laws : UpsertLaws client)
    (uuid5 : Text → Text) (decimal : ℕ → Text) where
  -- What held of every stored payload and holds of those of the job holds afterwards.
  pub upsert_chunks_sound :
      (P : Payload → Type 0) (job : IndexDocumentJob) (parser_name : Text) (chunks : List Text)
      (embeddings : List Vector) (db db' : Db)
      → ((p : Payload) → OfJob job parser_name chunks p → P p)
      → All P (client.payloads db)
      → upsert_chunks uuid5 decimal client job parser_name chunks embeddings db ≡ ok db'
      → All P (client.payloads db')
  unfolding upsert_chunks
  upsert_chunks_sound P job name [] embeddings db db' own all h = rw (← (ok-injective h)) all
  upsert_chunks_sound P job name (c ∷ chunks) embeddings db db' own all h =
      let (points, run, k) =
        bind-eq-ok (build_points uuid5 decimal job name 0 (c ∷ chunks) embeddings) _ h in
      let made =
        (build_points-payloads uuid5 decimal job name 0 (c ∷ chunks) embeddings points run).2 in
      laws.upsert_sound P db db' points all
        (All-mono
          (λ p (i, d, at, same).
            own p.payload (i, d, at, same ∙ ap (λ n. chunk_payload job name n d) (omega arith)))
          points made)
        k

  -- Chunks and vectors of different numbers are refused before anything is sent.
  pub upsert_chunks-strict :
      (job : IndexDocumentJob) (parser_name : Text) (chunks : List Text) (embeddings : List Vector)
      (db db' : Db)
      → upsert_chunks uuid5 decimal client job parser_name chunks embeddings db ≡ ok db'
      → length chunks ≤ length embeddings
  unfolding upsert_chunks
  upsert_chunks-strict job name [] embeddings db db' h = omega arith
  upsert_chunks-strict job name (c ∷ chunks) embeddings db db' h =
      let (points, run, k) =
        bind-eq-ok (build_points uuid5 decimal job name 0 (c ∷ chunks) embeddings) _ h in
      let (texts, vectors, made) =
        build_points-payloads uuid5 decimal job name 0 (c ∷ chunks) embeddings points run in
      omega (
        arith,
        ap length texts,
        ap length vectors,
        length-map (λ (p : Point Vector). p.payload.chunk_text) points,
        length-map (λ (p : Point Vector). p.vector) points,
      )
