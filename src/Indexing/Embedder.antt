-- ===== src/Indexing/Embedder.antt =====
-- backend/app/indexing/embedder.py. Parameters: `digest text` is `sha256(text.encode()).digest()` as
-- bytes, `scaled byte` is `round(byte / 255, 6)`, and the POST to the embedding service.
pub mod Slots
pub mod Vectors
use doc_search_ai.Retrieval.Retriever.{Embedder}
use doc_search_ai.Errors.{Raises, Exception, embedding_provider, value_error, other}
use doc_search_ai.Text.{Text, text}
use doc_search_ai.Common.{
  ℕ, zero, suc, Bool, true, false, Option, none, some, List, [], ◌∷◌, map, take, length, null, any,
  get_elem?, ltb, leb, ◌==◌, if◌then◌else◌, ok, raise, ◌>>=◌, ◌>>◌, raise_if,
}

module _ {F : Type 0} where
  -- `DeterministicEmbedder`
  unfoldable pub embed_digest : (Text → List ℕ) → (ℕ → F) → ℕ → List Text → List (List F)
  embed_digest digest scaled size texts = map (λ t. map scaled (take size (digest t))) texts

  abbrev pub deterministic_embedder : (Text → List ℕ) → (ℕ → F) → ℕ → Raises (Embedder (List F))
  deterministic_embedder digest scaled size =
      if size == 0
      then raise value_error
      else ok (record { embed_texts = λ texts. ok (embed_digest digest scaled size texts) })

-- The parts of a JSON value that `_parse_embedding_response` tells apart. An index may be a bool,
-- which Python counts as an int; a value of a vector is there if it is a number.
pub data IndexValue : Type 0 where
  int_index : ℕ → IndexValue
  negative_index not_int : IndexValue

pub data EmbeddingItem (F : Type 0) : Type 0 where
  not_dict : EmbeddingItem F
  dict : IndexValue → Option (List (Option F)) → EmbeddingItem F

-- What `response.json()` gives: an exception, a value that is no object, or an object with its
-- "data", if that is a list.
pub data EmbeddingBody (F : Type 0) : Type 0 where
  not_json not_object : EmbeddingBody F
  object : Option (List (EmbeddingItem F)) → EmbeddingBody F

pub data EmbeddingOutcome (F : Type 0) : Type 0 where
  http_error : Text → EmbeddingOutcome F
  response : ℕ → Text → EmbeddingBody F → EmbeddingOutcome F

abbrev pub invalid {ℓ} : {A : Type ℓ} → Text → Raises A
invalid what = raise (embedding_provider what)

-- `vectors`, of which the entries are filled one by one.
abbrev pub Filled : Type 0 → Type 0
Filled F = List (Option (List F))

module _ {F : Type 0} where
  abbrev pub unfilled : ℕ → Filled F
  unfilled zero = []
  unfilled (suc n) = none ∷ unfilled n

  unfoldable pub set_at : ℕ → List F → Filled F → Filled F
  set_at i v [] = []
  set_at zero v (_ ∷ l) = some v ∷ l
  set_at (suc i) v (x ∷ l) = x ∷ set_at i v l

  unfoldable pub read_values : List (Option F) → Raises (List F)
  read_values [] = ok []
  read_values (none ∷ l) = invalid (text "BGE embedding vector value was invalid")
  read_values (some x ∷ l) = do rest ← read_values l; ok (x ∷ rest)

  unfoldable pub read_vector : ℕ → Option (List (Option F)) → Raises (List F)
  read_vector size none = invalid (text "BGE embedding vector size was invalid")
  read_vector size (some values) =
      let read = read_values values in
      if length values == size then read else invalid (text "BGE embedding vector size was invalid")

  -- An entry that is free: `index` is in range and was not used.
  unfoldable pub free_index : Filled F → IndexValue → Raises ℕ
  free_index vectors not_int = invalid (text "BGE embedding response index was invalid")
  free_index vectors negative_index = invalid (text "BGE embedding response index was invalid")
  free_index vectors (int_index i) = elim (get_elem? vectors i) [
    | none ↦ invalid (text "BGE embedding response index was invalid")
    | some (some _) ↦ invalid (text "BGE embedding response index was duplicated")
    | some none ↦ ok i
  ]

  unfoldable pub place : ℕ → EmbeddingItem F → Filled F → Raises (Filled F)
  place size not_dict vectors = invalid (text "BGE embedding response item was invalid")
  place size (dict index embedding) vectors = do
    i ← free_index vectors index
    vector ← read_vector size embedding
    ok (set_at i vector vectors)

  unfoldable pub place_all : ℕ → List (EmbeddingItem F) → Filled F → Raises (Filled F)
  place_all size [] vectors = ok vectors
  place_all size (item ∷ items) vectors = do
    placed ← place size item vectors
    place_all size items placed

  abbrev pub is_unfilled : Option (List F) → Bool
  is_unfilled none = true
  is_unfilled (some v) = false

  abbrev pub filled_only : Filled F → List (List F)
  filled_only [] = []
  filled_only (none ∷ l) = filled_only l
  filled_only (some v ∷ l) = v ∷ filled_only l

  unfoldable pub parse_embedding_response : EmbeddingBody F → ℕ → ℕ → Raises (List (List F))
  parse_embedding_response not_json expected size =
      invalid (text "BGE embedding response was not valid JSON")
  parse_embedding_response not_object expected size = raise (other (text "AttributeError"))
  parse_embedding_response (object none) expected size =
      invalid (text "BGE embedding response data was invalid")
  parse_embedding_response (object (some items)) expected size =
      if length items == expected
      then (do
        vectors ← place_all size items (unfilled expected)
        raise_if (any is_unfilled vectors)
            (embedding_provider (text "BGE embedding response data was incomplete"))
        ok (filled_only vectors))
      else invalid (text "BGE embedding response data was invalid")

  -- `BGEEmbeddingClient.embed_texts`; the client is not called for no texts.
  unfoldable pub embed_texts :
      (List Text → EmbeddingOutcome F) → ℕ → List Text → Raises (List (List F))
  embed_texts post size [] = ok []
  embed_texts post size (t ∷ texts) = elim (post (t ∷ texts)) [
    | http_error message ↦ invalid message
    | response status_code message body ↦
        if leb 400 status_code
        then invalid message
        else parse_embedding_response body (length (t ∷ texts)) size
  ]
