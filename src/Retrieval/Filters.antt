-- ===== src/Retrieval/Filters.antt =====
-- backend/app/retrieval/filters.py: `build_qdrant_filter`, and what Qdrant documents a filter to
-- mean: every `must` clause holds, and one of the `should` conditions if there are any.
use doc_search_ai.Text.{Text, text, contains, text_eq, text_eq_iff}
use doc_search_ai.Common.{
  ◌≡◌, List, Option, Bool, any, map, [], ◌∷◌, ℕ, if◌then◌else◌, true, all, none, some, false, ◌&&◌,
  arith, refl, Option-cases, ◌∙◌, inl, inr, sym,
}

pub record RetrievalFilter : Type 0 where
  pub workspace_id : Text
  pub document_ids : Option (List Text)
  pub security_levels : Option (List Text)

-- `models.FieldCondition(key, match=MatchValue(value))`
pub record FieldCondition : Type 0 where
  pub key : Text
  pub value : Text

-- A `must` clause: a condition, or a nested `models.Filter(should=…)`.
pub data Clause : Type 0 where
  field : FieldCondition → Clause
  any_of : List FieldCondition → Clause

-- `models.Filter`
pub record QdrantFilter : Type 0 where
  pub must : List Clause
  pub should : Option (List FieldCondition)

-- `[FieldCondition(key, MatchValue(v)) for v in values]`
abbrev pub conditions : Text → List Text → List FieldCondition
conditions key values = map (λ v. record { key = key; value = v }) values

-- `None` and `[]` are both false.
abbrev pub or_empty : Option (List Text) → List Text
or_empty none = []
or_empty (some l) = l

-- The nested filter is added only where levels are given.
abbrev pub level_clauses : List Text → List Clause
level_clauses [] = []
level_clauses (l ∷ ls) = any_of (conditions (text "security_level") (l ∷ ls)) ∷ []

abbrev pub document_conditions : List Text → Option (List FieldCondition)
document_conditions [] = none
document_conditions (d ∷ ds) = some (conditions (text "document_id") (d ∷ ds))

unfoldable pub build_qdrant_filter : RetrievalFilter → QdrantFilter
build_qdrant_filter filters = record {
  must =
      field (record { key = text "workspace_id"; value = filters.workspace_id })
      ∷ level_clauses (or_empty filters.security_levels);
  should = document_conditions (or_empty filters.document_ids);
}

-- The payload that `upsert_chunks` writes; a point of an older version may have no level.
pub record Payload : Type 0 where
  pub workspace_id : Text
  pub workspace_name : Text
  pub document_id : Text
  pub uploaded_by_employee_id : Option Text
  pub security_level : Option Text
  pub filename : Text
  pub parser : Text
  pub chunk_index : ℕ
  pub chunk_text : Text

-- The text that a payload has under one of the keys that filters use.
unfoldable pub payload_field : Text → Payload → Option Text
payload_field key p =
    if text_eq key (text "workspace_id")
    then some p.workspace_id
    else if text_eq key (text "document_id")
    then some p.document_id
    else if text_eq key (text "security_level")
    then p.security_level
    else none

unfoldable pub holds : Payload → FieldCondition → Bool
unfolding payload_field
holds p c = elim (payload_field c.key p) [ none ↦ false | some v ↦ text_eq v c.value ]

abbrev pub holds_any : Payload → List FieldCondition → Bool
holds_any p [] = true
holds_any p (c ∷ cs) = any (holds p) (c ∷ cs)

abbrev pub holds_clause : Payload → Clause → Bool
holds_clause p (field c) = holds p c
holds_clause p (any_of cs) = holds_any p cs

abbrev pub holds_should : Payload → Option (List FieldCondition) → Bool
holds_should p none = true
holds_should p (some cs) = holds_any p cs

-- The documented meaning of a filter.
unfoldable pub satisfies : QdrantFilter → Payload → Bool
unfolding holds
satisfies f p = all (holds_clause p) f.must && holds_should p f.should

-- A list that was asked for, and is not empty, has the value.
abbrev pub Among : List Text → Text → Type 0
Among [] value = Unit
Among (v ∷ vs) value = contains (v ∷ vs) value ≡ true

-- What a payload must be to answer a query with the given filters.
pub record Answers (filters : RetrievalFilter) (workspace_id document_id security_level : Text)
    : Type 0 where
  pub own_workspace : workspace_id ≡ filters.workspace_id
  pub of_documents : Among (or_empty filters.document_ids) document_id
  pub of_levels : Among (or_empty filters.security_levels) security_level

-- The level of a payload as it is read back.
abbrev pub level_of : Option Text → Text
level_of none = text "internal"
level_of (some level) = level

any-conditions :
    (p : Payload) (key v : Text) (values : List Text)
    → payload_field key p ≡ some v
    → any (holds p) (conditions key values) ≡ contains values v
unfolding any contains holds
any-conditions p key v [] h = refl
any-conditions p key v (w ∷ values) h =
    ground (arith, any-conditions p key v values h, text_eq_iff v w, text_eq_iff w v)

any-conditions_missing :
    (p : Payload) (key : Text) (values : List Text)
    → payload_field key p ≡ none
    → any (holds p) (conditions key values) ≡ false
unfolding any holds
any-conditions_missing p key [] h = refl
any-conditions_missing p key (w ∷ values) h = ground (arith, any-conditions_missing p key values h)

field_of_level : (p : Payload) → payload_field (text "security_level") p ≡ p.security_level
unfolding payload_field text_eq
field_of_level p = refl

field_of_document : (p : Payload) → payload_field (text "document_id") p ≡ some p.document_id
unfolding payload_field text_eq
field_of_document p = refl

field_of_workspace : (p : Payload) → payload_field (text "workspace_id") p ≡ some p.workspace_id
unfolding payload_field text_eq
field_of_workspace p = refl

level_clause :
    (p : Payload) (levels : List Text)
    → any (holds p) (conditions (text "security_level") levels) ≡ true
    → contains levels (level_of p.security_level) ≡ true
level_clause p levels h = elim (Option-cases p.security_level) [
  | inl e ↦
      absurd
        (cc (h, any-conditions_missing p (text "security_level") levels (field_of_level p ∙ e)))
  | inr (v, e) ↦
      rw e (sym (any-conditions p (text "security_level") v levels (field_of_level p ∙ e)) ∙ h)
]

holds_workspace :
    (p : Payload) (ws : Text)
    → holds p (record { key = text "workspace_id"; value = ws }) ≡ text_eq p.workspace_id ws
unfolding holds text_eq
holds_workspace p ws = refl

level_clauses-Among :
    (p : Payload) (levels : List Text)
    → all (holds_clause p) (level_clauses levels) ≡ true
    → Among levels (level_of p.security_level)
unfolding all
level_clauses-Among p [] h = tt
level_clauses-Among p (l ∷ ls) h = level_clause p (l ∷ ls) (ground arith)

document_conditions-Among :
    (p : Payload) (ids : List Text)
    → holds_should p (document_conditions ids) ≡ true
    → Among ids p.document_id
document_conditions-Among p [] h = tt
document_conditions-Among p (d ∷ ds) h =
    sym (any-conditions p (text "document_id") p.document_id (d ∷ ds) (field_of_document p)) ∙ h

Among-level_clauses :
    (p : Payload) (levels : List Text) (v : Text)
    → p.security_level ≡ some v
    → Among levels v
    → all (holds_clause p) (level_clauses levels) ≡ true
unfolding all
Among-level_clauses p [] v e h = refl
Among-level_clauses p (l ∷ ls) v e h =
    rw (any-conditions p (text "security_level") v (l ∷ ls) (field_of_level p ∙ e) ∙ h) refl

Among-document_conditions :
    (p : Payload) (ids : List Text)
    → Among ids p.document_id
    → holds_should p (document_conditions ids) ≡ true
Among-document_conditions p [] h = refl
Among-document_conditions p (d ∷ ds) h =
    any-conditions p (text "document_id") p.document_id (d ∷ ds) (field_of_document p) ∙ h

-- A payload that satisfies the filter built for a query answers the query.
pub satisfies-Answers :
    (f : RetrievalFilter) (p : Payload)
    → satisfies (build_qdrant_filter f) p ≡ true
    → Answers f p.workspace_id p.document_id (level_of p.security_level)
unfolding satisfies build_qdrant_filter all
satisfies-Answers f p h = record {
  own_workspace =
      (text_eq_iff p.workspace_id f.workspace_id).0
        (sym (holds_workspace p f.workspace_id) ∙ ground arith);
  of_documents = document_conditions-Among p (or_empty f.document_ids) (ground arith);
  of_levels = level_clauses-Among p (or_empty f.security_levels) (ground arith);
}

-- A payload with a level that answers the query satisfies the filter.
pub Answers-satisfies :
    (f : RetrievalFilter) (p : Payload) (level : Text)
    → p.security_level ≡ some level
    → Answers f p.workspace_id p.document_id level
    → satisfies (build_qdrant_filter f) p ≡ true
unfolding satisfies build_qdrant_filter all
Answers-satisfies f p level e h = ground (
  arith,
  holds_workspace p f.workspace_id,
  text_eq_iff p.workspace_id f.workspace_id,
  Among-level_clauses p (or_empty f.security_levels) level e h.of_levels,
  Among-document_conditions p (or_empty f.document_ids) h.of_documents,
)

-- The filter of one document in a workspace.
pub document_filter :
    (ws id : Text) (p : Payload)
    → satisfies
        (build_qdrant_filter
          (record { workspace_id = ws; document_ids = some (id ∷ []); security_levels = none }))
        p
      ≡ (text_eq p.workspace_id ws && text_eq p.document_id id)
unfolding satisfies build_qdrant_filter all any text_eq
document_filter ws id p = ground arith
