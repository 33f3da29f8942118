-- ===== src/Retrieval/Store.antt =====
-- backend/app/retrieval/qdrant_store.py: `QdrantVectorStore`. The client is third-party code: its
-- operations over a database `Db` are a parameter, and `ClientLaws` is what Qdrant documents.
use doc_search_ai.Errors.{Raises}
use doc_search_ai.Retrieval.Filters.{
  Payload, QdrantFilter, RetrievalFilter, level_of, Answers, build_qdrant_filter, satisfies,
  satisfies-Answers, document_filter,
}
use doc_search_ai.Text.{Text, text_eq}
use mathlib.Core.Path.{fun_ext}
use doc_search_ai.Common.{
  ◌≡◌, ℕ, List, ok, All, filter, some, length, not, true, ◌∷◌, ◌≤◌, [], map, bind-eq-ok, ◌&&◌, none,
  ok-injective, arith, length-map, ◌∙◌, ap, ◌>>=◌,
}

pub record RetrievedChunk (F : Type 0) : Type 0 where
  pub workspace_id : Text
  pub document_id : Text
  pub filename : Text
  pub parser : Text
  pub chunk_index : ℕ
  pub chunk_text : Text
  pub score : F
  pub security_level : Text

pub record Point (Vector : Type 0) : Type 0 where
  pub id : Text
  pub vector : Vector
  pub payload : Payload

pub record ScoredPoint (F : Type 0) : Type 0 where
  pub payload : Payload
  pub score : F

pub record QdrantClient (Vector F Db : Type 0) : Type 0 where
  pub query_points : Db → Vector → QdrantFilter → ℕ → Raises (List (ScoredPoint F))
  pub scroll : Db → QdrantFilter → ℕ → Raises (List Payload)
  pub upsert : Db → List (Point Vector) → Raises Db
  pub delete : Db → QdrantFilter → Raises Db
  pub payloads : Db → List Payload

-- Both reads return points that satisfy the filter, at most as many as asked for; a deletion by a
-- filter leaves what does not satisfy it.
pub record ClientLaws {Vector F Db : Type 0} (client : QdrantClient Vector F Db) : Type 0 where
  pub query_points_sound :
      (db : Db) (v : Vector) (f : QdrantFilter) (n : ℕ) (points : List (ScoredPoint F))
      → client.query_points db v f n ≡ ok points
      → All (λ p. satisfies f p.payload ≡ true) points × (length points ≤ n)
  pub scroll_sound :
      (db : Db) (f : QdrantFilter) (n : ℕ) (found : List Payload)
      → client.scroll db f n ≡ ok found
      → All (λ p. satisfies f p ≡ true) found × (length found ≤ n)
  pub delete_exact :
      (db db' : Db) (f : QdrantFilter)
      → client.delete db f ≡ ok db'
      → client.payloads db' ≡ filter (λ p. not (satisfies f p)) (client.payloads db)

abbrev pub to_chunk : {F : Type 0} → Payload → F → RetrievedChunk F
to_chunk p score = record {
  workspace_id = p.workspace_id;
  document_id = p.document_id;
  filename = p.filename;
  parser = p.parser;
  chunk_index = p.chunk_index;
  chunk_text = p.chunk_text;
  score = score;
  security_level = level_of p.security_level;
}

module _ {Vector F Db : Type 0} (client : QdrantClient Vector F Db) (db : Db) where
  unfoldable pub search_vectors : Vector → RetrievalFilter → ℕ → Raises (List (RetrievedChunk F))
  search_vectors query_vector filters limit = do
    points ← client.query_points db query_vector (build_qdrant_filter filters) limit
    ok (map (λ p. to_chunk p.payload p.score) points)

  -- `zero` is the score 0.0.
  unfoldable pub list_chunks : F → RetrievalFilter → ℕ → Raises (List (RetrievedChunk F))
  list_chunks zero filters limit = do
    records ← client.scroll db (build_qdrant_filter filters) limit
    ok (map (λ p. to_chunk p zero) records)

  unfoldable pub delete_document : Text → Text → Raises Db
  delete_document workspace_id document_id = client.delete db (
      build_qdrant_filter (record {
        workspace_id = workspace_id;
        document_ids = some (document_id ∷ []);
        security_levels = none;
      }))

-- A chunk that may be shown for the given filters.
abbrev pub ChunkAnswers : {F : Type 0} → RetrievalFilter → RetrievedChunk F → Type 0
ChunkAnswers f c = Answers f c.workspace_id c.document_id c.security_level

module _ {Vector F Db : Type 0} (client : QdrantClient Vector F Db) (laws : ClientLaws client)
    (db : Db) where
  scored-Answers :
      (f : RetrievalFilter) (points : List (ScoredPoint F))
      → All (λ p. satisfies (build_qdrant_filter f) p.payload ≡ true) points
      → All (ChunkAnswers f) (map (λ p. to_chunk p.payload p.score) points)
  scored-Answers f [] h = tt
  scored-Answers f (p ∷ ps) h = (satisfies-Answers f p.payload h.0, scored-Answers f ps h.1)

  listed-Answers :
      (zero : F) (f : RetrievalFilter) (found : List Payload)
      → All (λ p. satisfies (build_qdrant_filter f) p ≡ true) found
      → All (ChunkAnswers f) (map (λ p. to_chunk p zero) found)
  listed-Answers zero f [] h = tt
  listed-Answers zero f (p ∷ ps) h = (satisfies-Answers f p h.0, listed-Answers zero f ps h.1)

  -- What a search returns answers the query, and is no longer than the limit.
  pub search_vectors-Answers :
      (v : Vector) (f : RetrievalFilter) (n : ℕ) (chunks : List (RetrievedChunk F))
      → search_vectors client db v f n ≡ ok chunks
      → All (ChunkAnswers f) chunks × (length chunks ≤ n)
  unfolding search_vectors
  search_vectors-Answers v f n chunks h =
      let (points, run, e) = bind-eq-ok (client.query_points db v (build_qdrant_filter f) n) _ h in
      let (sound, short) = laws.query_points_sound db v (build_qdrant_filter f) n points run in
      rw (← (ok-injective e)) (
        scored-Answers f points sound,
        omega (arith, short, length-map (λ (p : ScoredPoint F). to_chunk p.payload p.score) points),
      )

  pub list_chunks-Answers :
      (zero : F) (f : RetrievalFilter) (n : ℕ) (chunks : List (RetrievedChunk F))
      → list_chunks client db zero f n ≡ ok chunks
      → All (ChunkAnswers f) chunks × (length chunks ≤ n)
  unfolding list_chunks
  list_chunks-Answers zero f n chunks h =
      let (found, run, e) = bind-eq-ok (client.scroll db (build_qdrant_filter f) n) _ h in
      let (sound, short) = laws.scroll_sound db (build_qdrant_filter f) n found run in
      rw (← (ok-injective e)) (
        listed-Answers zero f found sound,
        omega (arith, short, length-map (λ (p : Payload). to_chunk p zero) found),
      )

  -- Deleting a document leaves exactly the points that are not of it, or not of the workspace.
  pub delete_document_exact :
      (ws id : Text) (db' : Db)
      → delete_document client db ws id ≡ ok db'
      → client.payloads db'
        ≡ filter
            (λ p. not (text_eq p.workspace_id ws && text_eq p.document_id id))
            (client.payloads db)
  unfolding delete_document
  delete_document_exact ws id db' h =
      laws.delete_exact db db' _ h
      ∙ ap (λ t. filter t (client.payloads db)) (fun_ext λ p. ap not (own p))
    where
      own :
          (p : Payload)
          → satisfies
              (build_qdrant_filter (record {
                workspace_id = ws;
                document_ids = some (id ∷ []);
                security_levels = none;
              }))
              p
            ≡ (text_eq p.workspace_id ws && text_eq p.document_id id)
      own p = document_filter ws id p
