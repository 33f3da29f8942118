-- ===== src/Chat/Citations/Bounds.antt =====
-- The numbers that are extracted from an answer.
use doc_search_ai.Text.{Text}
use doc_search_ai.Chat.Citations.{collect_ids, extract_citation_ids, is_cited, find_matches, to_int}
use doc_search_ai.Common.{
  ℕ, List, any, ◌≤◌, ◌∷◌, All, Option, ◌≡◌, ◌++◌, false, if◌then◌else◌, ok, true, [], ok-injective,
  arith, bind-eq-ok, none, refl, Bool-cases, ltb, ◌||◌, inl, inr, All-append,
}

abbrev pub InRange : ℕ → ℕ → Type 0
InRange max_id n = (1 ≤ n) × (n ≤ max_id)

-- No number twice.
abbrev pub DistinctIds : List ℕ → Type 0
DistinctIds [] = Unit
DistinctIds (n ∷ l) = (is_cited l n ≡ false) × DistinctIds l

is_cited-append :
    (l m : List ℕ) (n : ℕ) → is_cited (l ++ m) n ≡ (if is_cited l n then true else is_cited m n)
unfolding any
is_cited-append [] m n = refl
is_cited-append (k ∷ l) m n = ground (arith, is_cited-append l m n)

distinct-append_one :
    (l : List ℕ) (n : ℕ) → DistinctIds l → is_cited l n ≡ false → DistinctIds (l ++ n ∷ [])
unfolding any
distinct-append_one [] n d h = ground arith
distinct-append_one (k ∷ l) n d h =
    ground (arith, distinct-append_one l n, is_cited-append l (n ∷ []) k)

collect_ids-InRange :
    (max_id : ℕ) (ids : List ℕ) (ms : List (List ℕ)) (found : List ℕ)
    → All (InRange max_id) ids
    → DistinctIds ids
    → collect_ids max_id ids ms ≡ ok found
    → All (InRange max_id) found × DistinctIds found
unfolding collect_ids
collect_ids-InRange max_id ids [] found h d e = rw (← (ok-injective e)) (h, d)
collect_ids-InRange max_id ids (m ∷ ms) found h d e =
    let (n, read, e') = bind-eq-ok (to_int m) _ e in
    elim (Bool-cases (ltb n 1 || (ltb max_id n || is_cited ids n))) [
      | inl skip ↦ collect_ids-InRange max_id ids ms found h d (rw skip at e')
      | inr new ↦
          let fresh : is_cited ids n ≡ false = ground arith in
          let bounds : InRange max_id n = (ground arith, ground arith) in
          collect_ids-InRange max_id (ids ++ n ∷ []) ms found
            (All-append (InRange max_id) ids (n ∷ []) h (bounds, tt))
            (distinct-append_one ids n d fresh) (rw new at e')
    ]

-- The numbers that are extracted lie between 1 and the number of chunks, and none comes twice.
pub extract_citation_ids-InRange :
    (digit : ℕ → Option ℕ) (answer : Text) (max_id : ℕ) (ids : List ℕ)
    → extract_citation_ids digit answer max_id ≡ ok ids
    → All (InRange max_id) ids × DistinctIds ids
unfolding extract_citation_ids
extract_citation_ids-InRange digit answer max_id ids e =
    collect_ids-InRange max_id [] (find_matches digit none answer) ids tt tt e
