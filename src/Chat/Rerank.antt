-- ===== src/Chat/Rerank.antt =====
-- backend/app/reranking/base.py and bge_client.py: a reranker picks and scores some of the chunks
-- it is given. The HTTP client is a parameter.
use doc_search_ai.Common.{
  ◌∷◌, [], ok, ℕ, Option, List, if◌then◌else◌, map, raise, null, All, take, [], ◌≡◌, length,
  get_elem?, ◌≤◌, ◌+◌, ◌>>=◌, some, ◌++◌, none, any, ◌==◌, ok-injective, Option-cases, Bool-cases,
  All-map, arith, inl, All-take, bind-eq-ok, inr, length-map, subst, All-append, length-take-le, ap,
  length-append, All-get_elem?, leb,
}
use doc_search_ai.Errors.{Raises, reranker_provider, other}
use doc_search_ai.Retrieval.Store.{RetrievedChunk}
use doc_search_ai.Text.{Text, text, text_eq}

pub record RerankRequest (F : Type 0) : Type 0 where
  pub query : Text
  pub chunks : List (RetrievedChunk F)
  pub top_k : ℕ

pub record RerankedChunk (F : Type 0) : Type 0 where
  pub chunk : RetrievedChunk F
  pub rerank_score : F

abbrev pub Reranker : Type 0 → Type 0
Reranker F = RerankRequest F → Raises (List (RerankedChunk F))

-- `ScorePreservingReranker.rerank`
unfoldable pub score_preserving : {F : Type 0} → Reranker F
score_preserving request =
    ok (map (λ c. record { chunk = c; rerank_score = c.score }) (take request.top_k request.chunks))

-- The parts of a JSON value that `_parse_response` tells apart.
pub data IndexValue : Type 0 where
  int_index : ℕ → IndexValue
  negative_index not_int : IndexValue

pub data ResultItem (F : Type 0) : Type 0 where
  not_dict : ResultItem F
  dict : IndexValue → Option F → ResultItem F

-- What `response.json()` gives: an exception, a value that is no object, or an object with its
-- "results", if that is a list.
pub data JsonBody (F : Type 0) : Type 0 where
  not_json not_object : JsonBody F
  object : Option (List (ResultItem F)) → JsonBody F

-- What one POST to the reranking service gives; a response has its status, its error message and
-- its body.
pub data HttpOutcome (F : Type 0) : Type 0 where
  http_error : Text → HttpOutcome F
  response : ℕ → Text → JsonBody F → HttpOutcome F

-- `request.chunks[index]` after the guards, or the exception of the guard that fails.
unfoldable pub chunk_at :
    {F : Type 0} → List (RetrievedChunk F) → List ℕ → IndexValue → Raises (ℕ × RetrievedChunk F)
chunk_at chunks used not_int =
    raise (reranker_provider (text "BGE reranker result index was invalid"))
chunk_at chunks used negative_index =
    raise (reranker_provider (text "BGE reranker result index was invalid"))
chunk_at chunks used (int_index i) = elim (get_elem? chunks i) [
  | none ↦ raise (reranker_provider (text "BGE reranker result index was invalid"))
  | some c ↦
      if any (λ j. i == j) used
      then raise (reranker_provider (text "BGE reranker result index was duplicated"))
      else ok (i, c)
]

-- The loop of `_parse_response`, with the indexes used and the chunks so far.
unfoldable pub parse_items :
    {F : Type 0}
    → List (RetrievedChunk F)
    → List ℕ
    → List (RerankedChunk F)
    → List (ResultItem F)
    → Raises (List (RerankedChunk F))
parse_items chunks used reranked [] = ok reranked
parse_items chunks used reranked (not_dict ∷ items) =
    raise (reranker_provider (text "BGE reranker result item was invalid"))
parse_items chunks used reranked (dict index none ∷ items) = do
  _ ← chunk_at chunks used index
  raise (reranker_provider (text "BGE reranker result relevance_score was invalid"))
parse_items chunks used reranked (dict index (some score) ∷ items) = do
  found ← chunk_at chunks used index
  parse_items chunks (found.0 ∷ used)
      (reranked ++ record { chunk = found.1; rerank_score = score } ∷ []) items

-- `BGERerankerClient.rerank` after the check of the status. Of a body that is no object, `get`
-- raises an AttributeError.
unfoldable pub read_body :
    {F : Type 0} → RerankRequest F → JsonBody F → Raises (List (RerankedChunk F))
read_body request not_json =
    raise (reranker_provider (text "BGE reranker response was not valid JSON"))
read_body request not_object = raise (other (text "AttributeError"))
read_body request (object none) =
    raise (reranker_provider (text "BGE reranker response did not include results"))
read_body request (object (some items)) =
    parse_items request.chunks [] [] (take request.top_k items)

-- `BGERerankerClient.rerank` after the POST.
unfoldable pub read_outcome :
    {F : Type 0} → RerankRequest F → HttpOutcome F → Raises (List (RerankedChunk F))
read_outcome request (http_error m) = raise (reranker_provider m)
read_outcome request (response code m content) =
    let read = read_body request content in
    if leb 400 code then raise (reranker_provider m) else read

-- `BGERerankerClient.rerank`
unfoldable pub bge_rerank : {F : Type 0} → (RerankRequest F → HttpOutcome F) → Reranker F
bge_rerank post request =
    let answered = read_outcome request (post request) in
    if null request.chunks then ok [] else answered

-- A reranker returns only chunks that it was given, and at most `top_k` of them.
abbrev pub IsHonest : {F : Type 0} → Reranker F → Type 1
IsHonest {F = F} rerank =
    (P : RetrievedChunk F → Type 0) (request : RerankRequest F) (found : List (RerankedChunk F))
    → All P request.chunks
    → rerank request ≡ ok found
    → All (λ item. P item.chunk) found × (length found ≤ request.top_k)

-- The reranker that keeps the scores is honest.
pub score_preserving-IsHonest : {F : Type 0} → IsHonest {F = F} score_preserving
unfolding score_preserving
score_preserving-IsHonest {F} P request found h e =
    let scored : RetrievedChunk F → RerankedChunk F =
      λ c. record { chunk = c; rerank_score = c.score } in
    rw (← (ok-injective e)) (
      All-map (λ item. P item.chunk) scored _ (All-take P request.top_k request.chunks h),
      omega (
        arith,
        length-map scored (take request.top_k request.chunks),
        length-take-le request.top_k request.chunks,
      ),
    )

chunk_at-given :
    {F : Type 0} (P : RetrievedChunk F → Type 0) (chunks : List (RetrievedChunk F)) (used : List ℕ)
    (index : IndexValue) (found : ℕ × RetrievedChunk F)
    → All P chunks
    → chunk_at chunks used index ≡ ok found
    → P found.1
unfolding chunk_at
chunk_at-given P chunks used not_int found h e = absurd cc
chunk_at-given P chunks used negative_index found h e = absurd cc
chunk_at-given P chunks used (int_index i) found h e = elim (Option-cases (get_elem? chunks i)) [
  | inl none_at ↦ let k = rw (none_at, chunk_at) at e in absurd cc
  | inr (c, at_i) ↦ elim (Bool-cases (any (λ j. i == j) used)) [
    | inl seen ↦ let k = rw (at_i, chunk_at, seen) at e in absurd cc
    | inr new ↦
        let k = rw (at_i, chunk_at, new) at e in
        subst P (ap (λ r. r.1) (ok-injective k)) (All-get_elem? P chunks i h at_i)
  ]
]

parse_items-honest :
    {F : Type 0} (P : RetrievedChunk F → Type 0) (chunks : List (RetrievedChunk F)) (used : List ℕ)
    (reranked : List (RerankedChunk F)) (items : List (ResultItem F))
    (found : List (RerankedChunk F))
    → All P chunks
    → All (λ item. P item.chunk) reranked
    → parse_items chunks used reranked items ≡ ok found
    → All (λ item. P item.chunk) found × (length found ≡ length reranked + length items)
unfolding parse_items
parse_items-honest P chunks used reranked [] found h k e = rw (← (ok-injective e)) (k, omega arith)
parse_items-honest P chunks used reranked (not_dict ∷ items) found h k e = absurd cc
parse_items-honest P chunks used reranked (dict index none ∷ items) found h k e =
    let (r, run, e') = bind-eq-ok (chunk_at chunks used index) _ e in absurd cc
parse_items-honest {F} P chunks used reranked (dict index (some score) ∷ items) found h k e =
    let (r, run, e') = bind-eq-ok (chunk_at chunks used index) _ e in
    let item : RerankedChunk F = record { chunk = r.1; rerank_score = score } in
    let (given, count) =
      parse_items-honest P chunks (r.0 ∷ used) (reranked ++ item ∷ []) items found h
        (All-append _ reranked (item ∷ []) k (chunk_at-given P chunks used index r h run, tt)) e' in
    (given, omega (arith, count, length-append reranked (item ∷ [])))

read_body-honest :
    {F : Type 0} (P : RetrievedChunk F → Type 0) (request : RerankRequest F) (content : JsonBody F)
    (found : List (RerankedChunk F))
    → All P request.chunks
    → read_body request content ≡ ok found
    → All (λ item. P item.chunk) found × (length found ≤ request.top_k)
unfolding read_body
read_body-honest P request not_json found h e = absurd cc
read_body-honest P request not_object found h e = absurd cc
read_body-honest P request (object none) found h e = absurd cc
read_body-honest P request (object (some items)) found h e =
    let (given, count) =
      parse_items-honest P request.chunks [] [] (take request.top_k items) found h tt e in
    (given, omega (arith, count, length-take-le request.top_k items))

read_outcome-honest :
    {F : Type 0} (P : RetrievedChunk F → Type 0) (request : RerankRequest F)
    (outcome : HttpOutcome F) (found : List (RerankedChunk F))
    → All P request.chunks
    → read_outcome request outcome ≡ ok found
    → All (λ item. P item.chunk) found × (length found ≤ request.top_k)
unfolding read_outcome
read_outcome-honest P request (http_error m) found h e = absurd cc
read_outcome-honest P request (response code m content) found h e =
    elim (Bool-cases (leb 400 code)) [
      | inl refused ↦ let k = rw (refused, read_outcome) at e in absurd cc
      | inr fine ↦ read_body-honest P request content found h (rw (fine, read_outcome) at e)
    ]

-- Whatever the reranking service answers: each chunk that is returned is one of those that were
-- given, so what holds of all of them holds of it; and there are at most `top_k` of them.
pub bge_rerank-All :
    {F : Type 0} (post : RerankRequest F → HttpOutcome F) (P : RetrievedChunk F → Type 0)
    (request : RerankRequest F) (found : List (RerankedChunk F))
    → All P request.chunks
    → bge_rerank post request ≡ ok found
    → All (λ item. P item.chunk) found × (length found ≤ request.top_k)
unfolding bge_rerank
bge_rerank-All post P request found h e = elim (Bool-cases (null request.chunks)) [
  | inl empty ↦ let k = rw (empty, bge_rerank) at e in rw (← (ok-injective k)) (tt, omega arith)
  | inr some_chunks ↦
      read_outcome-honest P request (post request) found h (rw (some_chunks, bge_rerank) at e)
]

-- `get_reranker` of chat/router.py, by `settings.reranker_backend`.
unfoldable pub get_reranker : {F : Type 0} → (RerankRequest F → HttpOutcome F) → Text → Reranker F
get_reranker post backend =
    if text_eq backend (text "bge") then bge_rerank post else score_preserving

-- Whatever the backend, the reranker is honest.
pub get_reranker-IsHonest :
    {F : Type 0} (post : RerankRequest F → HttpOutcome F) (backend : Text)
    → IsHonest (get_reranker post backend)
unfolding get_reranker
get_reranker-IsHonest post backend = elim (Bool-cases (text_eq backend (text "bge"))) [
  | inl e ↦ rw e (bge_rerank-All post)
  | inr e ↦ rw e score_preserving-IsHonest
]
