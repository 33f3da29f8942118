-- ===== src/Auth/Keys.antt =====
-- backend/app/auth/service.py and store.py: the entries of the settings DOCSEARCH_API_KEYS and
-- DOCSEARCH_AUTH_USERS, and the check of an API key.
pub mod Roles
use doc_search_ai.Auth.Models.{ApiKeyRecord, UserRecord, member_role, supported_roles}
use doc_search_ai.Auth.Tokens.{Crypto, hash_password, compare_digest}
use doc_search_ai.Errors.{Raises, value_error}
use doc_search_ai.Text.{Text, strip, split_on, contains}
use doc_search_ai.Common.{
  ℕ, suc, Option, none, some, List, [], ◌∷◌, map, null, ok, raise, ◌>>=◌, ◌>>◌, if◌then◌else◌,
  raise_if, not,
}

-- The loop over the entries: an empty one is skipped, the n-th one is read from its fields.
unfoldable pub parse_entries :
    {A : Type 0} → (ℕ → List Text → Raises A) → ℕ → List Text → Raises (List A)
parse_entries read n [] = ok []
parse_entries read n (entry ∷ entries) =
    let normalized = strip entry in
    let rest = parse_entries read (suc n) entries in
    if null normalized then rest else (do
      record_read ← read n (map strip (split_on 124 normalized))
      records ← rest
      ok (record_read ∷ records))

unfoldable pub api_key_record : Text → Text → Text → Text → Raises ApiKeyRecord
api_key_record api_key workspace_id workspace_name role = do
  raise_if (not (contains supported_roles role)) value_error
  ok (record {
    api_key = api_key;
    workspace_id = workspace_id;
    workspace_name = workspace_name;
    role = role;
  })

unfoldable pub read_api_key : ℕ → List Text → Raises ApiKeyRecord
read_api_key n (key ∷ workspace ∷ name ∷ []) = api_key_record key workspace name member_role
read_api_key n (key ∷ workspace ∷ name ∷ role ∷ []) = api_key_record key workspace name role
read_api_key n _ = raise value_error

unfoldable pub parse_api_keys : Text → Raises (List ApiKeyRecord)
parse_api_keys raw = parse_entries read_api_key 0 (split_on 59 raw)

-- `value.strip() or None`
unfoldable pub normalize_optional : Option Text → Option Text
normalize_optional none = none
normalize_optional (some value) =
    let normalized = strip value in if null normalized then none else some normalized

module _ (crypto : Crypto) (salts : ℕ → Text) where
  unfoldable pub seed_user : ℕ → Text → Text → Text → Text → Text → Option Text → Raises UserRecord
  seed_user n employee_id password workspace_id workspace_name role display_name = do
    raise_if (not (contains supported_roles role)) value_error
    raise_if (null (strip employee_id)) value_error
    ok (record {
      employee_id = strip employee_id;
      password_hash = hash_password crypto (salts n) password;
      workspace_id = workspace_id;
      workspace_name = workspace_name;
      role = role;
      display_name = normalize_optional display_name;
    })

  unfoldable pub read_user : ℕ → List Text → Raises UserRecord
  read_user n (id ∷ password ∷ workspace ∷ name ∷ role ∷ []) =
      seed_user n id password workspace name role none
  read_user n (id ∷ password ∷ workspace ∷ name ∷ role ∷ display ∷ []) =
      seed_user n id password workspace name role (some display)
  read_user n _ = raise value_error

  -- `salts n` is what `secrets.token_hex(16)` gives for the n-th entry.
  unfoldable pub parse_auth_users : Text → Raises (List UserRecord)
  parse_auth_users raw = parse_entries read_user 0 (split_on 59 raw)

-- The loop of `validate_api_key`.
unfoldable pub find_api_key : Text → List ApiKeyRecord → Raises (Option ApiKeyRecord)
find_api_key api_key [] = ok none
find_api_key api_key (r ∷ records) =
    let rest = find_api_key api_key records in
    do same ← compare_digest r.api_key api_key; if same then ok (some r) else rest

-- The keys are parsed when the first request needs them.
unfoldable pub validate_api_key : Text → Text → Raises (Option ApiKeyRecord)
validate_api_key raw_keys api_key = do
  records ← parse_api_keys raw_keys
  find_api_key api_key records
