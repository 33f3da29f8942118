-- ===== src/Documents/Security.antt =====
-- backend/app/documents/security.py: which security levels a role may name. The proofs are in
-- the modules below.
pub mod Access
pub mod Levels
use doc_search_ai.Common.{
  Bool, true, false, not, ◌&&◌, Option, none, some, List, [], ◌∷◌, ◌++◌, null, filter, ok, raise,
  raise_if, ◌>>=◌, ◌>>◌, if◌then◌else◌,
}
use doc_search_ai.Text.{Text, text, text_eq, contains, strip}
use doc_search_ai.Errors.{Exception, http, security_permission, Raises}
use doc_search_ai.Auth.Models.{admin_role}
use doc_search_ai.Documents.Models.{
  general_security_level, internal_security_level, confidential_security_level,
  restricted_security_level, supported_document_security_levels,
}

abbrev pub member_security_levels : List Text
member_security_levels = general_security_level ∷ internal_security_level ∷ []

abbrev pub admin_security_levels : List Text
admin_security_levels =
    general_security_level ∷ internal_security_level ∷ confidential_security_level
    ∷ restricted_security_level ∷ []

abbrev pub invalid_security_level : Exception
invalid_security_level = http 400 (text "DOCUMENT_INVALID_SECURITY_LEVEL")

-- `security_level.strip() or INTERNAL_SECURITY_LEVEL`
unfoldable pub normalize_level : Text → Text
normalize_level level =
    let stripped = strip level in if null stripped then internal_security_level else stripped

unfoldable pub validate_document_security_level : Text → Raises Text
unfolding normalize_level
validate_document_security_level level =
    let normalized = normalize_level level in
    if contains supported_document_security_levels normalized
    then ok normalized
    else raise invalid_security_level

-- The loop, with the list `validated` so far.
unfoldable pub validate_each : List Text → List Text → Raises (List Text)
validate_each [] validated = ok validated
validate_each (level ∷ levels) validated = do
  normalized ← validate_document_security_level level
  validate_each levels
      (if contains validated normalized then validated else validated ++ normalized ∷ [])

unfoldable pub validate_document_security_levels : Option (List Text) → Raises (Option (List Text))
unfolding validate_each
validate_document_security_levels none = ok none
validate_document_security_levels (some []) = ok none
validate_document_security_levels (some (level ∷ levels)) = do
  validated ← validate_each (level ∷ levels) []
  ok (some validated)

unfoldable pub allowed_document_security_levels : Text → List Text
allowed_document_security_levels role =
    if text_eq role admin_role then admin_security_levels else member_security_levels

unfoldable pub ensure_document_security_level_allowed : Text → Text → Raises (Unit {0})
ensure_document_security_level_allowed role level = do
  validated ← validate_document_security_level level
  raise_if (not (contains (allowed_document_security_levels role) validated)) security_permission

-- What is left to do when the levels have been validated.
unfoldable pub restrict_to_role : Text → Option (List Text) → Raises (Option (List Text))
restrict_to_role role none =
    if text_eq role admin_role then ok none else ok (some (allowed_document_security_levels role))
restrict_to_role role (some validated) =
    let disallowed =
      filter (λ l. not (contains (allowed_document_security_levels role) l)) validated in
    if null disallowed then ok (some validated) else raise security_permission

unfoldable pub filter_document_security_levels_for_role :
    Text → Option (List Text) → Raises (Option (List Text))
unfolding restrict_to_role
filter_document_security_levels_for_role role requested = do
  validated ← validate_document_security_levels requested
  restrict_to_role role validated
