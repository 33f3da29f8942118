-- ===== src/Examples/Security.antt =====
-- backend/app/documents/security.py on the requests of a member.
use doc_search_ai.Documents.Security.Levels.{Validates, IsSupported, validate_levels_outcome}
use doc_search_ai.Text.{text, strip, is_space, contains, text_eq, Text}
use doc_search_ai.Documents.Security.Access.{Permits, filter_for_role-Permits, ensure_iff_filter}
use doc_search_ai.Documents.Security.{
  filter_document_security_levels_for_role, validate_document_security_levels,
  validate_document_security_level, allowed_document_security_levels,
  ensure_document_security_level_allowed, normalize_level, invalid_security_level,
}
use doc_search_ai.Common.{◌≡◌, some, ◌∷◌, [], filter, ok, refl, List, ◌↔◌, ◌⊎◌, raise, All}

member_asks :
    filter_document_security_levels_for_role (text "member") (some (text " internal " ∷ []))
    ≡ ok (some (text "internal" ∷ []))
unfolding filter_document_security_levels_for_role validate_document_security_levels
    validate_document_security_level strip is_space contains text_eq
    allowed_document_security_levels filter
member_asks = refl

filter_for_role-Permits_example : Permits (text "member") (some (text "internal" ∷ []))
filter_for_role-Permits_example =
    filter_for_role-Permits (text "member") (some (text " internal " ∷ []))
      (some (text "internal" ∷ [])) member_asks

validate_levels_outcome_example :
    ((levels : List Text) × (validate_document_security_levels (some (text "secret" ∷ []))
        ≡ ok (some levels))
      × Validates (text "secret" ∷ []) levels)
    ⊎ ((validate_document_security_levels (some (text "secret" ∷ []))
          ≡ raise invalid_security_level)
        × (¬ All (λ x. IsSupported (normalize_level x)) (text "secret" ∷ [])))
validate_levels_outcome_example = validate_levels_outcome (text "secret") []

ensure_iff_filter_example :
    (ensure_document_security_level_allowed (text "member") (text "general") ≡ ok tt) ↔ (
      filter_document_security_levels_for_role (text "member") (some (text "general" ∷ []))
      ≡ ok (some (normalize_level (text "general") ∷ [])))
ensure_iff_filter_example = ensure_iff_filter (text "member") (text "general")
