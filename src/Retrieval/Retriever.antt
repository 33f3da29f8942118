-- ===== src/Retrieval/Retriever.antt =====
-- backend/app/retrieval/retriever.py: the dense and the hybrid retriever. Parameters: the embedder,
-- the vector client, floating-point arithmetic, and what Python's Unicode database says of
-- `str.lower` and of `\w`.
pub mod Isolation
use doc_search_ai.Retrieval.Filters.{RetrievalFilter}
use doc_search_ai.Errors.{Raises, other}
use doc_search_ai.Retrieval.Store.{QdrantClient, RetrievedChunk, list_chunks, search_vectors}
use doc_search_ai.Text.{Text, flush, text_eq, contains, text}
use doc_search_ai.Common.{
  ℕ, List, Bool, ◌∷◌, if◌then◌else◌, [], false, not, take, max, ◌>>=◌, raise, null, ◌&&◌, any, true,
  ◌==◌, sorted, ◌++◌, length, ltb, map, ok, filter,
}

pub record FloatOps (F : Type 0) : Type 0 where
  pub zero : F
  pub add : F → F → F
  pub mul : F → F → F
  pub div : F → F → F
  pub neg : F → F
  pub of_ℕ : ℕ → F
  pub round6 : F → F
  pub lt : F → F → Bool
  pub eq : F → F → Bool

-- The embedder of a retriever, as far as it is called.
pub record Embedder (Vector : Type 0) : Type 0 where
  pub embed_texts : List Text → Raises (List Vector)

-- `embed_texts([query_text])[0]`
unfoldable pub embed_query : {Vector : Type 0} → Embedder Vector → Text → Raises Vector
embed_query embedder query_text = do
  vectors ← embedder.embed_texts (query_text ∷ [])
  elim vectors [ [] ↦ raise (other (text "IndexError")) | v ∷ _ ↦ ok v ]

module _ {Vector F Db : Type 0} (client : QdrantClient Vector F Db) (embedder : Embedder Vector)
    (db : Db) where
  -- `DenseRetriever.retrieve`
  unfoldable pub retrieve_dense : Text → RetrievalFilter → ℕ → Raises (List (RetrievedChunk F))
  retrieve_dense query_text filters limit = do
    vector ← embed_query embedder query_text
    search_vectors client db vector filters limit

-- The maximal runs of word characters, when `w` is the run that is being read: `re.findall(r"\w+")`.
unfoldable pub word_runs : (ℕ → Bool) → Text → Text → List Text
word_runs is_word w [] = flush w []
word_runs is_word w (c ∷ s) = elim (is_word c) [
  | true ↦ word_runs is_word (w ++ c ∷ []) s
  | false ↦ flush w (word_runs is_word [] s)
]

-- `set(l)` as a list without repetitions.
unfoldable pub to_set : List Text → List Text
to_set [] = []
to_set (s ∷ l) = let rest = to_set l in if contains rest s then rest else s ∷ rest

module _ (lower : Text → Text) (is_word : ℕ → Bool) where
  unfoldable pub tokenize : Text → List Text
  unfolding word_runs to_set
  tokenize value = to_set (word_runs is_word [] (lower value))

  unfoldable pub lexical_score : {F : Type 0} → FloatOps F → List Text → Text → F
  unfolding tokenize
  lexical_score ops query_terms chunk_text =
      let chunk_terms = tokenize chunk_text in
      if null query_terms
      then ops.zero
      else if null chunk_terms
      then ops.zero
      else ops.div (ops.of_ℕ (length (filter (contains chunk_terms) query_terms)))
          (ops.of_ℕ (length query_terms))

-- `_chunk_key(a) == _chunk_key(b)`
abbrev pub same_key : {F : Type 0} → RetrievedChunk F → RetrievedChunk F → Bool
same_key a b = text_eq a.document_id b.document_id && a.chunk_index == b.chunk_index

-- `{_chunk_key(c): c.score for c in chunks}.get(key, 0.0)`: a later chunk replaces an earlier one.
unfoldable pub score_in : {F : Type 0} → F → List (RetrievedChunk F) → RetrievedChunk F → F
score_in zero [] c = zero
score_in zero (d ∷ ds) c = score_in (if same_key d c then d.score else zero) ds c

-- The loop `candidates.setdefault(_chunk_key(chunk), chunk)`, with the values so far.
unfoldable pub set_defaults :
    {F : Type 0} → List (RetrievedChunk F) → List (RetrievedChunk F) → List (RetrievedChunk F)
set_defaults candidates [] = candidates
set_defaults candidates (c ∷ cs) =
    set_defaults (if any (same_key c) candidates then candidates else candidates ++ c ∷ []) cs

-- `<` on texts: by code points, a prefix first.
unfoldable pub text_lt : Text → Text → Bool
text_lt s [] = false
text_lt [] (d ∷ t) = true
text_lt (c ∷ s) (d ∷ t) = if c == d then text_lt s t else ltb c d

-- `<` on the sort keys `(-score, filename, chunk_index, document_id)`: the first parts that differ
-- decide.
unfoldable pub key_lt : {F : Type 0} → FloatOps F → RetrievedChunk F → RetrievedChunk F → Bool
unfolding text_lt
key_lt ops a b =
    if ops.eq (ops.neg a.score) (ops.neg b.score)
    then (if text_eq a.filename b.filename
        then (if a.chunk_index == b.chunk_index
            then text_lt a.document_id b.document_id
            else ltb a.chunk_index b.chunk_index)
        else text_lt a.filename b.filename)
    else ops.lt (ops.neg a.score) (ops.neg b.score)

abbrev pub not_after : {F : Type 0} → FloatOps F → RetrievedChunk F → RetrievedChunk F → Bool
not_after ops a b = not (key_lt ops b a)

pub record HybridConfig (F : Type 0) : Type 0 where
  pub dense_weight : F
  pub lexical_weight : F
  pub candidate_limit : ℕ

module _ {Vector F Db : Type 0} (client : QdrantClient Vector F Db) (embedder : Embedder Vector)
    (ops : FloatOps F) (lower : Text → Text) (is_word : ℕ → Bool) (config : HybridConfig F) where
  -- The combined score of one candidate.
  unfoldable pub hybrid_score : List (RetrievedChunk F) → List Text → RetrievedChunk F → F
  unfolding score_in lexical_score
  hybrid_score dense_chunks query_terms c = ops.round6 (
      ops.add (ops.mul (score_in ops.zero dense_chunks c) config.dense_weight)
        (ops.mul (lexical_score lower is_word ops query_terms c.chunk_text) config.lexical_weight))

  unfoldable pub rank :
      List (RetrievedChunk F) → List (RetrievedChunk F) → Text → ℕ → List (RetrievedChunk F)
  unfolding hybrid_score set_defaults key_lt tokenize
  rank dense_chunks lexical_chunks query_text limit =
      let query_terms = tokenize lower is_word query_text in
      take limit (
        sorted (not_after ops) (
          map {A = RetrievedChunk F}
            (λ c. record c { score = hybrid_score dense_chunks query_terms c })
            (set_defaults [] (dense_chunks ++ lexical_chunks))))

  -- `HybridRetriever.retrieve`
  unfoldable pub retrieve_hybrid :
      Db → Text → RetrievalFilter → ℕ → Raises (List (RetrievedChunk F))
  retrieve_hybrid db query_text filters limit = do
    let candidate_limit = max limit config.candidate_limit
    vector ← embed_query embedder query_text
    dense_chunks ← search_vectors client db vector filters candidate_limit
    lexical_chunks ← list_chunks client db ops.zero filters candidate_limit
    ok (rank dense_chunks lexical_chunks query_text limit)

  -- `build_retriever`, by `retrieval_mode == "hybrid"`, and the call of `retrieve`.
  unfoldable pub retrieve :
      Text → Db → Text → RetrievalFilter → ℕ → Raises (List (RetrievedChunk F))
  retrieve retrieval_mode db query_text filters limit =
      if text_eq retrieval_mode (text "hybrid")
      then retrieve_hybrid db query_text filters limit
      else retrieve_dense client embedder db query_text filters limit
