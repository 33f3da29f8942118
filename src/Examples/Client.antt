-- ===== src/Examples/Client.antt =====
-- A vector client in memory that keeps the laws, and what an example needs beside it.
use doc_search_ai.Retrieval.Filters.{Payload, satisfies}
use doc_search_ai.Retrieval.Retriever.{Embedder, FloatOps, HybridConfig}
use doc_search_ai.Auth.Models.{WorkspaceContext}
use doc_search_ai.Common.{
  List, ℕ, ok-injective, ok, ◌+◌, Bool, take, All-take, none, ◌∷◌, ◌*◌, leb, map, All-map, some, [],
  ◌/◌, ◌&&◌, filter, All-filter_of_test, ◌-◌, ltb, ◌++◌, length-take-le, ◌==◌, not, sym,
}
use doc_search_ai.Text.{Text, text}
use doc_search_ai.Retrieval.Store.{QdrantClient, ClientLaws}

abbrev pub memory_client : QdrantClient ℕ ℕ (List Payload)
memory_client = record {
  query_points = λ db v f n.
      ok (take n (map (λ p. record { payload = p; score = 5 }) (filter (satisfies f) db)));
  scroll = λ db f n. ok (take n (filter (satisfies f) db));
  upsert = λ db points. ok (db ++ map (λ p. p.payload) points);
  delete = λ db f. ok (filter (λ p. not (satisfies f p)) db);
  payloads = λ db. db;
}

pub memory_client-ClientLaws : ClientLaws memory_client
memory_client-ClientLaws = record {
  query_points_sound = λ db v f n points e. rw (← (ok-injective e)) (
    All-take _ n _ (All-map _ _ _ (All-filter_of_test _ (satisfies f) (λ p h. h) db)),
    length-take-le n _,
  );
  scroll_sound = λ db f n found e.
      rw (← (ok-injective e))
        (All-take _ n _ (All-filter_of_test _ (satisfies f) (λ p h. h) db), length-take-le n _);
  delete_exact = λ db db' f e. sym (ok-injective e);
}

abbrev pub payload : Text → Text → Text → Payload
payload workspace document level = record {
  workspace_id = workspace;
  workspace_name = workspace;
  document_id = document;
  uploaded_by_employee_id = none;
  security_level = some level;
  filename = document;
  parser = text "text";
  chunk_index = 0;
  chunk_text = text "hello";
}

-- Two workspaces, and a document that members may not read.
abbrev pub stored : List Payload
stored =
    payload (text "w1") (text "a") (text "general")
    ∷ payload (text "w1") (text "b") (text "restricted")
    ∷ payload (text "w2") (text "c") (text "general")
    ∷ []

abbrev pub member_of_w1 : WorkspaceContext
member_of_w1 = record {
  request_id = text "r";
  workspace_id = text "w1";
  workspace_name = text "w1";
  role = text "member";
  employee_id = none;
  display_name = none;
}

abbrev pub one_vector : Embedder ℕ
one_vector = record { embed_texts = λ texts. ok (0 ∷ []) }

abbrev pub whole_numbers : FloatOps ℕ
whole_numbers = record {
  zero = 0;
  add = λ a b. a + b;
  mul = λ a b. a * b;
  div = λ a b. a / b;
  neg = λ a. 1000 - a;
  of_ℕ = λ n. n;
  round6 = λ a. a;
  lt = ltb;
  eq = λ a b. a == b;
}

abbrev pub hybrid_config : HybridConfig ℕ
hybrid_config = record { dense_weight = 1; lexical_weight = 1; candidate_limit = 10 }

abbrev pub ascii_letter : ℕ → Bool
ascii_letter c = leb 97 c && leb c 122
