-- ===== src/Indexing/Embedder/Vectors.antt =====
-- The vectors that are returned: one for each text, of the right size, at its own index.
use doc_search_ai.Indexing.Embedder.{
  IndexValue, Filled, EmbeddingItem, EmbeddingBody, not_dict, dict, int_index, negative_index,
  not_int, read_values, read_vector, free_index, place, place_all, parse_embedding_response,
  unfilled, filled_only, is_unfilled, object, not_json, not_object,
}
use doc_search_ai.Indexing.Embedder.Slots.{
  Sized, set_at-Sized, set_at-kept, set_at-same, length-set_at, length-unfilled, unfilled-Sized,
  filled_only-Sized, filled_only-at, length-filled_only,
}
use doc_search_ai.Common.{
  ◌≡◌, refl, ℕ, Option, none, some, List, map, length, get_elem?, All, ok, bind-eq-ok, ok-injective,
  ap, Bool-cases, ◌==◌, [], inl, sym, length-map, ◌∙◌, ==_iff, inr, ◌∷◌, any, Option-cases, false,
  raise_if, raise_if-false, All-mono,
}

module _ {F : Type 0} where
  read_values-map : (l : List (Option F)) (v : List F) → read_values l ≡ ok v → map some v ≡ l
  unfolding read_values
  read_values-map [] v h = rw (← (ok-injective h)) refl
  read_values-map (none ∷ l) v h = absurd cc
  read_values-map (some x ∷ l) v h =
      let (rest, e, k) = bind-eq-ok (read_values l) _ h in
      rw (← (ok-injective k)) (ap (λ t. some x ∷ t) (read_values-map l rest e))

  read_vector-map :
      (size : ℕ) (embedding : Option (List (Option F))) (v : List F)
      → read_vector size embedding ≡ ok v
      → (embedding ≡ some (map some v)) × (length v ≡ size)
  unfolding read_vector
  read_vector-map size none v h = absurd cc
  read_vector-map size (some values) v h = elim (Bool-cases (length values == size)) [
    | inl e ↦
        let same = read_values-map values v (rw (e, read_vector) at h) in
        (
          ap some (sym same),
          sym (length-map some v) ∙ ap length same ∙ (==_iff (length values) size).0 e,
        )
    | inr e ↦ absurd (cc (rw (e, read_vector) at h))
  ]

  free_index-free :
      (l : Filled F) (index : IndexValue) (i : ℕ)
      → free_index l index ≡ ok i
      → (index ≡ int_index i) × (get_elem? l i ≡ some none)
  unfolding free_index
  free_index-free l not_int i h = absurd cc
  free_index-free l negative_index i h = absurd cc
  free_index-free l (int_index j) i h = elim (Option-cases (get_elem? l j)) [
    | inl e ↦ absurd (cc (rw (e, free_index) at h))
    | inr (some w, e) ↦ absurd (cc (rw (e, free_index) at h))
    | inr (none, e) ↦
        let same : j ≡ i = ok-injective (rw (e, free_index) at h) in rw (← same) (refl, e)
  ]

  -- The vector of an item stands at the index of the item.
  abbrev pub Placed : Filled F → EmbeddingItem F → Type 0
  Placed l (dict (int_index i) (some values)) =
      (v : List F) × (map some v ≡ values) × (get_elem? l i ≡ some (some v))
  Placed l item = ⊥

  -- What is filled stays filled.
  abbrev Extends : Filled F → Filled F → Type 0
  Extends l l' =
      (j : ℕ) (w : List F) → get_elem? l j ≡ some (some w) → get_elem? l' j ≡ some (some w)

  record IsPlaced (size : ℕ) (item : EmbeddingItem F) (l l' : Filled F) : Type 0 where
    same_length : length l' ≡ length l
    extends : Extends l l'
    sized : All (Sized size) l → All (Sized size) l'
    placed : Placed l' item

  place-IsPlaced :
      (size : ℕ) (item : EmbeddingItem F) (l l' : Filled F)
      → place size item l ≡ ok l'
      → IsPlaced size item l l'
  unfolding place
  place-IsPlaced size not_dict l l' h = absurd cc
  place-IsPlaced size (dict index embedding) l l' h =
      let (i, e, h1) = bind-eq-ok (free_index l index) _ h in
      let (v, e2, h2) = bind-eq-ok (read_vector size embedding) _ h1 in
      let (at_i, free) = free_index-free l index i e in
      let (read, sized) = read_vector-map size embedding v e2 in
      rw (at_i, read, ← (ok-injective h2))
        (record {
          same_length = length-set_at i v l;
          extends = λ j w k. set_at-kept i j v w l free k;
          sized = set_at-Sized size i v l sized;
          placed = (v, refl, set_at-same i v l free);
        })

  Placed-Extends :
      (l l' : Filled F) (item : EmbeddingItem F) → Extends l l' → Placed l item → Placed l' item
  Placed-Extends l l' not_dict h p = p
  Placed-Extends l l' (dict not_int e) h p = p
  Placed-Extends l l' (dict negative_index e) h p = p
  Placed-Extends l l' (dict (int_index i) none) h p = p
  Placed-Extends l l' (dict (int_index i) (some values)) h (v, e, k) = (v, e, h i v k)

  record ArePlaced (size : ℕ) (items : List (EmbeddingItem F)) (l l' : Filled F) : Type 0 where
    same_length : length l' ≡ length l
    extends : Extends l l'
    sized : All (Sized size) l → All (Sized size) l'
    placed : All (Placed l') items

  place_all-ArePlaced :
      (size : ℕ) (items : List (EmbeddingItem F)) (l l' : Filled F)
      → place_all size items l ≡ ok l'
      → ArePlaced size items l l'
  unfolding place_all
  place_all-ArePlaced size [] l l' h =
      rw (← (ok-injective h))
        (record { same_length = refl; extends = λ j w k. k; sized = λ k. k; placed = tt })
  place_all-ArePlaced size (item ∷ items) l l' h =
      let (m, e, k) = bind-eq-ok (place size item l) _ h in
      let first = place-IsPlaced size item l m e in
      let rest = place_all-ArePlaced size items m l' k in
      record {
        same_length = rest.same_length ∙ first.same_length;
        extends = λ j w at. rest.extends j w (first.extends j w at);
        sized = λ all. rest.sized (first.sized all);
        placed = (Placed-Extends m l' item rest.extends first.placed, rest.placed);
      }

  -- The vector of an item stands in the answer at the index of the item.
  abbrev pub Answered : List (List F) → EmbeddingItem F → Type 0
  Answered vectors (dict (int_index i) (some values)) =
      (v : List F) × (map some v ≡ values) × (get_elem? vectors i ≡ some v)
  Answered vectors item = ⊥

  Placed-Answered :
      (l : Filled F) (item : EmbeddingItem F)
      → any is_unfilled l ≡ false
      → Placed l item
      → Answered (filled_only l) item
  Placed-Answered l not_dict h p = p
  Placed-Answered l (dict not_int e) h p = p
  Placed-Answered l (dict negative_index e) h p = p
  Placed-Answered l (dict (int_index i) none) h p = p
  Placed-Answered l (dict (int_index i) (some values)) h (v, e, k) =
      (v, e, filled_only-at l i v h k)

  -- The "data" of a body, if it has one.
  abbrev pub items_of : EmbeddingBody F → List (EmbeddingItem F)
  items_of (object (some items)) = items
  items_of body = []

  -- A body that is accepted gives one vector for each of the texts, each of the size asked for, and
  -- every item of the body has its vector, unchanged, at its own index: the order in which the
  -- service lists the items does not matter.
  pub parse_embedding-ordered :
      (body : EmbeddingBody F) (expected size : ℕ) (vectors : List (List F))
      → parse_embedding_response body expected size ≡ ok vectors
      → (length vectors ≡ expected)
        × All (λ v. length v ≡ size) vectors
        × All (Answered vectors) (items_of body)
  unfolding parse_embedding_response
  parse_embedding-ordered not_json expected size vectors h = absurd cc
  parse_embedding-ordered not_object expected size vectors h = absurd cc
  parse_embedding-ordered (object none) expected size vectors h = absurd cc
  parse_embedding-ordered (object (some items)) expected size vectors h =
      elim (Bool-cases (length items == expected)) [
        | inr e ↦ absurd (cc (rw (e, parse_embedding_response) at h))
        | inl e ↦
            let (l, run, h1) =
              bind-eq-ok (place_all size items (unfilled expected)) _
                (rw (e, parse_embedding_response) at h) in
            let (_, full, h2) = bind-eq-ok (raise_if (any is_unfilled l) _) _ h1 in
            let all = place_all-ArePlaced size items (unfilled expected) l run in
            let complete : any is_unfilled l ≡ false = raise_if-false (any is_unfilled l) _ full in
            rw (← (ok-injective h2)) (
              length-filled_only l complete ∙ all.same_length ∙ length-unfilled F expected,
              filled_only-Sized size l (all.sized (unfilled-Sized F size expected)),
              All-mono (λ item. Placed-Answered l item complete) items all.placed,
            )
      ]
