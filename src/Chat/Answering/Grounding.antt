-- ===== src/Chat/Answering/Grounding.antt =====
-- What stands behind the citations of an answer.
use doc_search_ai.Chat.Citations.Bounds.{InRange}
use doc_search_ai.Chat.Rerank.{RerankedChunk}
use doc_search_ai.Chat.Service.{
  build_citations, chunk_numbered, ChatCitation, to_citation, build_snippet, shorten,
}
use doc_search_ai.Text.{Text, text, join, split_ws}
use doc_search_ai.Common.{
  List, ℕ, ◌<◌, All, ◌≡◌, length, get_elem?, ok, some, map, ok-injective, arith, ◌∷◌, suc, ap,
  bind-eq-ok, [], All-get_elem?, refl, zero, ◌++◌, ◌-◌, leb, take, if◌then◌else◌,
}

-- The words of a text with one space between them, or as many characters of that, with an ellipsis
-- at the end, as the limit allows.
abbrev pub cut_to : ℕ → Text → Text
cut_to limit value =
    let words = join (text " ") (split_ws value) in
    if leb (length words) limit then words else take (limit - 3) words ++ text "..."

get_elem?-some :
    {A : Type 0} (xs : List A) (i : ℕ) → i < length xs → (x : A) × (get_elem? xs i ≡ some x)
get_elem?-some [] i h = absurd (omega arith)
get_elem?-some (x ∷ xs) zero h = (x, refl)
get_elem?-some (x ∷ xs) (suc i) h = get_elem?-some xs i (omega arith)

module _ {F : Type 0} where
  -- Citations for numbers in range are always built, one for each number: the index is never out
  -- of range.
  pub build_citations_total :
      (chunks : List (RerankedChunk F)) (ids : List ℕ)
      → All (InRange (length chunks)) ids
      → (citations : List (ChatCitation F)) × (build_citations chunks ids ≡ ok citations)
        × (map (λ (c : ChatCitation F). c.citation_id) citations ≡ ids)
  unfolding build_citations chunk_numbered
  build_citations_total chunks [] h = ([], refl, refl)
  build_citations_total chunks (zero ∷ ids) h = absurd (omega (arith, h.0.0))
  build_citations_total chunks (suc i ∷ ids) h =
      let (item, at_i) = get_elem?-some chunks i (omega (arith, h.0.1)) in
      let (rest, run, numbers) = build_citations_total chunks ids h.1 in
      (
        to_citation (suc i) item ∷ rest,
        rw (build_citations, chunk_numbered, at_i, run) refl,
        ap (◌∷◌ (suc i)) numbers,
      )

  module _ (P : RerankedChunk F → Type 0) where
    -- A citation of a chunk with a property.
    pub record Cites (c : ChatCitation F) : Type 0 where
      pub item : RerankedChunk F
      pub same_document : c.document_id ≡ item.chunk.document_id
      pub same_filename : c.filename ≡ item.chunk.filename
      pub same_level : c.security_level ≡ item.chunk.security_level
      pub same_index : c.chunk_index ≡ item.chunk.chunk_index
      pub same_scores : (c.score ≡ item.chunk.score) × (c.rerank_score ≡ item.rerank_score)
      pub same_snippet : c.snippet ≡ cut_to 240 item.chunk.chunk_text
      pub holds : P item

    pub build_citations-Cites :
        (chunks : List (RerankedChunk F)) (ids : List ℕ) (citations : List (ChatCitation F))
        → All P chunks
        → All (InRange (length chunks)) ids
        → build_citations chunks ids ≡ ok citations
        → All Cites citations
    unfolding build_citations chunk_numbered build_snippet shorten
    build_citations-Cites chunks [] citations g h e = rw (← (ok-injective e)) tt
    build_citations-Cites chunks (zero ∷ ids) citations g h e = absurd (omega (arith, h.0.0))
    build_citations-Cites chunks (suc i ∷ ids) citations g h e =
        let (item, at_i) = get_elem?-some chunks i (omega (arith, h.0.1)) in
        let e' = rw (build_citations, chunk_numbered, at_i) at e in
        let (rest, run, done) = bind-eq-ok (build_citations chunks ids) _ e' in
        rw (← (ok-injective done)) (
          record {
            item = item;
            same_document = refl;
            same_filename = refl;
            same_level = refl;
            same_index = refl;
            same_scores = (refl, refl);
            same_snippet = refl;
            holds = All-get_elem? P chunks i g at_i;
          },
          build_citations-Cites chunks ids rest g h.1 run,
        )
