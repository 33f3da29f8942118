-- ===== src/Search/Route/Access.antt =====
-- What a search may show: chunks of the caller's workspace, of documents that were asked for, and
-- of levels that the caller's role may read.
use doc_search_ai.Retrieval.Retriever.Isolation.{retrieve-Answers}
use doc_search_ai.Retrieval.Retriever.{Embedder, FloatOps, HybridConfig, retrieve}
use doc_search_ai.Documents.Security.{
  allowed_document_security_levels, filter_document_security_levels_for_role,
  validate_document_security_levels,
}
use doc_search_ai.Retrieval.Store.{RetrievedChunk, ChunkAnswers, QdrantClient, ClientLaws}
use doc_search_ai.Documents.Security.Access.{
  Permits, filter_for_role-Permits, filter_for_role_refuses,
}
use doc_search_ai.Retrieval.Filters.{RetrievalFilter, Among, or_empty}
use doc_search_ai.Search.Route.{
  Retriever, search_documents, on_security_error, on_embedding_error, SearchRequest, SearchResponse,
  SearchResultChunk, security_forbidden,
}
use doc_search_ai.Errors.{translate, translate-ok}
use doc_search_ai.Auth.Models.{WorkspaceContext, admin_role}
use doc_search_ai.Text.{Text, contains, All_at}
use doc_search_ai.Common.{
  ◌≡◌, Option, List, ◌⊎◌, ok, ℕ, All, map, true, inl, length, ◌≤◌, some, ◌∷◌, inr, none, [],
  bind-eq-ok, ok-injective, get_elem?, All-at, All-both, ap, sym, All-mono, arith, length-map, refl,
  false, raise, Bool,
}

-- A role may read a level: the role is `admin`, or the level is among those of the role.
abbrev pub MayRead : Text → Text → Type 0
MayRead role level =
    (role ≡ admin_role) ⊎ (contains (allowed_document_security_levels role) level ≡ true)

pub Permits-MayRead :
    (role : Text) (levels : Option (List Text)) (level : Text)
    → Permits role levels
    → Among (or_empty levels) level
    → MayRead role level
Permits-MayRead role none level h m = inl h
Permits-MayRead role (some []) level h m = cc
Permits-MayRead role (some (l ∷ ls)) level h m =
    inr
      (All_at (λ x. contains (allowed_document_security_levels role) x ≡ true) (l ∷ ls) level h.1 m)

-- What a chunk is that the caller of a request may see.
pub record Visible {F : Type 0} (context : WorkspaceContext) (document_ids : List Text)
    (c : RetrievedChunk F) : Type 0 where
  pub own_workspace : c.workspace_id ≡ context.workspace_id
  pub asked_document : Among document_ids c.document_id
  pub readable : MayRead context.role c.security_level

-- A retriever that respects the filters it is given.
abbrev pub IsSound : {F : Type 0} → Retriever F → Type 0
IsSound {F = F} retrieve =
    (q : Text) (f : RetrievalFilter) (n : ℕ) (chunks : List (RetrievedChunk F))
    → retrieve q f n ≡ ok chunks
    → All (ChunkAnswers f) chunks × (length chunks ≤ n)

-- A chunk that the retriever gave when it was asked the query for the caller's workspace, and that
-- the caller may see.
pub record Found {F : Type 0} (retrieve : Retriever F) (context : WorkspaceContext) (query : Text)
    (document_ids : Option (List Text)) (c : RetrievedChunk F) : Type 0 where
  pub levels : Option (List Text)
  pub limit : ℕ
  pub given : List (RetrievedChunk F)
  pub retrieved :
      retrieve query
        (record {
          workspace_id = context.workspace_id;
          document_ids = document_ids;
          security_levels = levels;
        })
        limit
      ≡ ok given
  pub index : ℕ
  pub is_given : get_elem? given index ≡ some c
  pub visible : Visible context (or_empty document_ids) c

-- What the retriever gives for levels within the role is found in this sense.
pub given-Found :
    {F : Type 0} (retrieve : Retriever F) (context : WorkspaceContext) (query : Text)
    (document_ids levels : Option (List Text)) (limit : ℕ) (given : List (RetrievedChunk F))
    → IsSound retrieve
    → Permits context.role levels
    → retrieve query
        (record {
          workspace_id = context.workspace_id;
          document_ids = document_ids;
          security_levels = levels;
        })
        limit
      ≡ ok given
    → All (Found retrieve context query document_ids) given × (length given ≤ limit)
given-Found retrieve context query document_ids levels limit given sound permits run =
    let (answers, short) = sound query _ limit given run in
    (
      All-mono
          (λ c ((i, at), answer). record {
            levels = levels;
            limit = limit;
            given = given;
            retrieved = run;
            index = i;
            is_given = at;
            visible = record {
              own_workspace = answer.own_workspace;
              asked_document = answer.of_documents;
              readable =
                  Permits-MayRead context.role levels c.security_level permits answer.of_levels;
            };
          })
          given (All-both _ _ given (All-at given) answers),
      short,
    )

-- How a chunk is shown.
abbrev pub shown : {F : Type 0} → RetrievedChunk F → SearchResultChunk F
shown c = record {
  document_id = c.document_id;
  filename = c.filename;
  parser = c.parser;
  security_level = c.security_level;
  chunk_index = c.chunk_index;
  score = c.score;
  snippet = c.chunk_text;
}

pub search_documents-Found :
    {F : Type 0} (retrieve : Retriever F) (context : WorkspaceContext) (request : SearchRequest)
    (response : SearchResponse F)
    → IsSound retrieve
    → search_documents retrieve context request ≡ ok response
    → (chunks : List (RetrievedChunk F)) × (response.results ≡ map shown chunks)
      × All (Found retrieve context request.query request.document_ids) chunks
      × (response.total ≡ length response.results)
      × (response.total ≤ request.limit)
unfolding search_documents
search_documents-Found {F} retrieve context request response sound h =
    let (levels, allowed, e) =
      bind-eq-ok
        (translate on_security_error
          (filter_document_security_levels_for_role context.role request.security_levels))
        _ h in
    let (chunks, run, e') =
      bind-eq-ok
        (translate on_embedding_error (
          retrieve request.query
            (record {
              workspace_id = context.workspace_id;
              document_ids = request.document_ids;
              security_levels = levels;
            })
            request.limit))
        _ e in
    let permits =
      filter_for_role-Permits context.role request.security_levels levels
        (translate-ok on_security_error _ allowed) in
    let (found, short) =
      given-Found retrieve context request.query request.document_ids levels request.limit chunks
        sound permits (translate-ok on_embedding_error _ run) in
    let done = ok-injective e' in
    (
      chunks,
      ap (λ (r : SearchResponse F). r.results) (sym done),
      found,
      rw (← done) refl,
      rw (← done) (omega (arith, short, length-map (shown {F = F}) chunks)),
    )

-- If all the levels that a request asks for are valid, and one of them is closed to the caller's
-- role, the answer is status 403, whatever the retriever would do.
pub search_documents_forbidden :
    {F : Type 0} (retrieve : Retriever F) (context : WorkspaceContext) (request : SearchRequest)
    (levels : List Text) (level : Text)
    → validate_document_security_levels request.security_levels ≡ ok (some levels)
    → contains levels level ≡ true
    → contains (allowed_document_security_levels context.role) level ≡ false
    → search_documents retrieve context request ≡ raise security_forbidden
unfolding search_documents on_security_error
search_documents_forbidden retrieve context request levels level v m no_access =
    rw (filter_for_role_refuses context.role request.security_levels levels level v m no_access)
      refl

-- A search that returns, with the dense or the hybrid retriever over a vector store that respects
-- its filters, shows only chunks that the retriever gave for the query in the caller's workspace,
-- all of that workspace, of the documents asked for if any are,
-- and of levels that the caller's role may read; it shows at most `limit` of them, and counts them.
pub search_isolated :
    {Vector F Db : Type 0} (client : QdrantClient Vector F Db) (laws : ClientLaws client)
    (embedder : Embedder Vector) (ops : FloatOps F) (lower : Text → Text) (is_word : ℕ → Bool)
    (config : HybridConfig F) (mode : Text) (db : Db) (context : WorkspaceContext)
    (request : SearchRequest) (response : SearchResponse F)
    → search_documents (retrieve client embedder ops lower is_word config mode db) context request
      ≡ ok response
    → (chunks : List (RetrievedChunk F)) × (response.results ≡ map shown chunks)
      × All
          (Found
            (retrieve client embedder ops lower is_word config mode db)
            context
            request.query
            request.document_ids)
          chunks
      × (response.total ≡ length response.results)
      × (response.total ≤ request.limit)
search_isolated client laws embedder ops lower is_word config mode db context request response =
    search_documents-Found _ context request response
      (retrieve-Answers client laws embedder ops lower is_word config mode db)
