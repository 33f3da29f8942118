-- ===== src/Search/Route.antt =====
-- backend/app/search/models.py and router.py: `search_documents`. The bounds of pydantic on `query`
-- and `limit` are not part of the handler.
pub mod Access
use doc_search_ai.Documents.Security.{filter_document_security_levels_for_role}
use doc_search_ai.Retrieval.Filters.{RetrievalFilter}
use doc_search_ai.Common.{Option, ℕ, ◌>>=◌, raise, List, ok, length, map}
use doc_search_ai.Auth.Models.{WorkspaceContext}
use doc_search_ai.Retrieval.Store.{RetrievedChunk}
use doc_search_ai.Errors.{
  Exception, Raises, http, embedding_provider, translate, security_permission,
}
use doc_search_ai.Text.{Text, text}

pub record SearchRequest : Type 0 where
  pub query : Text
  pub document_ids : Option (List Text)
  pub security_levels : Option (List Text)
  pub limit : ℕ

pub record SearchResultChunk (F : Type 0) : Type 0 where
  pub document_id : Text
  pub filename : Text
  pub parser : Text
  pub security_level : Text
  pub chunk_index : ℕ
  pub score : F
  pub snippet : Text

pub record SearchResponse (F : Type 0) : Type 0 where
  pub query : Text
  pub total : ℕ
  pub results : List (SearchResultChunk F)

abbrev pub security_forbidden : Exception
security_forbidden = http 403 (text "DOCUMENT_SECURITY_FORBIDDEN")

-- `except DocumentSecurityPermissionError`
unfoldable pub on_security_error : Exception → Exception
on_security_error security_permission = security_forbidden
on_security_error e = e

-- `except EmbeddingProviderError`
unfoldable pub on_embedding_error : Exception → Exception
on_embedding_error (embedding_provider m) = http 502 (text "SEARCH_EMBEDDING_UNAVAILABLE")
on_embedding_error e = e

abbrev pub to_result : {F : Type 0} → RetrievedChunk F → SearchResultChunk F
to_result c = record {
  document_id = c.document_id;
  filename = c.filename;
  parser = c.parser;
  security_level = c.security_level;
  chunk_index = c.chunk_index;
  score = c.score;
  snippet = c.chunk_text;
}

-- The retriever that the route is given is a parameter: any function of this type.
abbrev pub Retriever : Type 0 → Type 0
Retriever F = Text → RetrievalFilter → ℕ → Raises (List (RetrievedChunk F))

unfoldable pub search_documents :
    {F : Type 0} → Retriever F → WorkspaceContext → SearchRequest → Raises (SearchResponse F)
search_documents retrieve context request = do
  security_levels ←
      translate on_security_error
        (filter_document_security_levels_for_role context.role request.security_levels)
  chunks ← translate on_embedding_error (
      retrieve request.query
        (record {
          workspace_id = context.workspace_id;
          document_ids = request.document_ids;
          security_levels = security_levels;
        })
        request.limit)
  ok (record {
    query = request.query;
    total = length (map to_result chunks);
    results = map to_result chunks;
  })
