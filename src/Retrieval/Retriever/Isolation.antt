-- ===== src/Retrieval/Retriever/Isolation.antt =====
-- Whatever the mode, what is retrieved answers the query's filters and respects its limit.
use doc_search_ai.Retrieval.Filters.{RetrievalFilter}
use doc_search_ai.Text.{Text, text_eq, text}
use doc_search_ai.Retrieval.Store.{
  QdrantClient, RetrievedChunk, ClientLaws, ChunkAnswers, search_vectors, search_vectors-Answers,
  list_chunks, list_chunks-Answers,
}
use doc_search_ai.Retrieval.Retriever.{
  set_defaults, Embedder, FloatOps, same_key, HybridConfig, rank, retrieve_dense, retrieve_hybrid,
  retrieve, embed_query, not_after,
}
use doc_search_ai.Common.{
  ◌≡◌, List, All, ◌∷◌, Bool-cases, ℕ, any, Bool, inl, inr, ◌++◌, ok, [], length, All-append, ◌≤◌,
  All-take, bind-eq-ok, max, sorted-All, All-map, subst, ok-injective, length-take-le,
}

set_defaults-All :
    {F : Type 0} (P : RetrievedChunk F → Type 0) (acc cs : List (RetrievedChunk F))
    → All P acc
    → All P cs
    → All P (set_defaults acc cs)
unfolding set_defaults
set_defaults-All P acc [] h k = h
set_defaults-All P acc (c ∷ cs) h k = elim (Bool-cases (any (same_key c) acc)) [
  | inl e ↦ rw e (set_defaults-All P acc cs h k.1)
  | inr e ↦ rw e (set_defaults-All P (acc ++ c ∷ []) cs (All-append P acc (c ∷ []) h (k.0, tt)) k.1)
]

module _ {Vector F Db : Type 0} (client : QdrantClient Vector F Db) (laws : ClientLaws client)
    (embedder : Embedder Vector) (ops : FloatOps F) (lower : Text → Text) (is_word : ℕ → Bool)
    (config : HybridConfig F) where
  rank-Answers :
      (f : RetrievalFilter) (dense lexical : List (RetrievedChunk F)) (q : Text) (n : ℕ)
      → All (ChunkAnswers f) dense
      → All (ChunkAnswers f) lexical
      → All (ChunkAnswers f) (rank client embedder ops lower is_word config dense lexical q n)
        × (length (rank client embedder ops lower is_word config dense lexical q n) ≤ n)
  unfolding rank
  rank-Answers f dense lexical q n h k = (
    All-take _ n _ (
        sorted-All (not_after ops) _ _ (
          All-map _ _ _ (
            set_defaults-All (ChunkAnswers f) [] (dense ++ lexical) tt
              (All-append _ dense lexical h k)))),
    length-take-le n _,
  )

  dense-Answers :
      (db : Db) (q : Text) (f : RetrievalFilter) (n : ℕ) (chunks : List (RetrievedChunk F))
      → retrieve_dense client embedder db q f n ≡ ok chunks
      → All (ChunkAnswers f) chunks × (length chunks ≤ n)
  unfolding retrieve_dense
  dense-Answers db q f n chunks h =
      let (v, run, e) =
        bind-eq-ok (embed_query embedder q) (λ v. search_vectors client db v f n) h in
      search_vectors-Answers client laws db v f n chunks e

  hybrid-Answers :
      (db : Db) (q : Text) (f : RetrievalFilter) (n : ℕ) (chunks : List (RetrievedChunk F))
      → retrieve_hybrid client embedder ops lower is_word config db q f n ≡ ok chunks
      → All (ChunkAnswers f) chunks × (length chunks ≤ n)
  unfolding retrieve_hybrid
  hybrid-Answers db q f n chunks h =
      let m = max n config.candidate_limit in
      let (v, run, e) = bind-eq-ok (embed_query embedder q) _ h in
      let (dense, dense_run, e') = bind-eq-ok (search_vectors client db v f m) _ e in
      let (lexical, lexical_run, e'') = bind-eq-ok (list_chunks client db ops.zero f m) _ e' in
      subst (λ l. All (ChunkAnswers f) l × (length l ≤ n)) (ok-injective e'')
        (rank-Answers f dense lexical q n
          (search_vectors-Answers client laws db v f m dense dense_run).0
          (list_chunks-Answers client laws db ops.zero f m lexical lexical_run).0)

  -- A retrieval that returns, dense or hybrid, returns at most `limit` chunks, each of the
  -- workspace, of one of the documents if any are given, and of one of the levels if any are given.
  pub retrieve-Answers :
      (mode : Text) (db : Db) (q : Text) (f : RetrievalFilter) (n : ℕ)
      (chunks : List (RetrievedChunk F))
      → retrieve client embedder ops lower is_word config mode db q f n ≡ ok chunks
      → All (ChunkAnswers f) chunks × (length chunks ≤ n)
  unfolding retrieve
  retrieve-Answers mode db q f n chunks h = elim (Bool-cases (text_eq mode (text "hybrid"))) [
    | inl e ↦ hybrid-Answers db q f n chunks (rw e at h)
    | inr e ↦ dense-Answers db q f n chunks (rw e at h)
  ]
