-- ===== src/Examples/Accounts.antt =====
-- A toy cryptography that keeps the laws, with one key, one signup and the tokens of one user.
use doc_search_ai.Examples.Cipher.{toy_crypto, toy_crypto-CryptoLaws}
use doc_search_ai.Auth.Router.{
  Request, unauthorized, context_from_user, require_workspace_context, signup, login,
  build_auth_response, context_by_key, context_from_api_key, context_of_found,
}
use doc_search_ai.Auth.Router.Contexts.{ByKey, ByToken, context-authentic, key_not_ascii}
use doc_search_ai.Auth.Router.Statuses.{signup-login, login_blank, token-context}
use doc_search_ai.Auth.Service.{
  AuthSettings, register_user, signup_record, build_member_user_record, normalize_employee_id,
  validate_password, get_user, create_user,
}
use doc_search_ai.Auth.Tokens.{
  Claims, create_access_token, sign, load_claims, or_default, user_of_claims, compare_digest,
}
use doc_search_ai.Auth.Tokens.RoundTrip.{validate-create, validate-signed}
use doc_search_ai.Auth.Keys.{
  parse_api_keys, parse_entries, read_api_key, validate_api_key, api_key_record, find_api_key,
  normalize_optional,
}
use doc_search_ai.Auth.Models.{AuthResponse, UserRecord, ApiKeyRecord}
use doc_search_ai.Errors.{other, auth_error}
use doc_search_ai.Text.{
  Text, text, has_char, strip, lstrip, rstrip, is_space, split_on, contains, text_eq,
}
use doc_search_ai.Common.{
  [], ◌∷◌, ◌++◌, none, some, ok, raise, refl, ◌≡◌, ◌⊎◌, ◌≤◌, if◌then◌else◌, ltb, ◌+◌, map, all, leb,
  ◌&&◌, find, any,
}

abbrev pub lowercase : Text → Text
lowercase s = map (λ c. if leb 65 c && leb c 90 then c + 32 else c) s

abbrev pub demo_settings : AuthSettings
demo_settings = record {
  auth_token_secret = text "secret";
  auth_token_ttl_seconds = 60;
  signup_default_workspace_id = text "w1";
  signup_default_workspace_name = text "Demo";
  api_keys = text "k|w1|Demo|admin";
}

abbrev demo_user : UserRecord
demo_user = record {
  employee_id = text "7";
  password_hash = [];
  workspace_id = text "w1";
  workspace_name = text "Demo";
  role = text "member";
  display_name = none;
}

token-context_example :
    require_workspace_context toy_crypto demo_settings lowercase 50 (record {
      request_id = text "r";
      api_key = none;
      authorization =
          some (text "Bearer " ++ create_access_token toy_crypto (text "secret") 60 0 demo_user);
    })
    ≡ (if ltb (0 + 60) 50
        then raise (unauthorized (text "AUTH_INVALID_TOKEN"))
        else ok (context_from_user (text "r") demo_user))
token-context_example =
    token-context toy_crypto demo_settings lowercase toy_crypto-CryptoLaws 0 50 (text "r") demo_user
      refl

abbrev demo_token : Text
demo_token = create_access_token toy_crypto (text "secret") 60 0 demo_user

validate-signed_example :
    (encoded : Text) × (claims : Claims) × (demo_token
      ≡ encoded ++ 46 ∷ sign toy_crypto (text "secret") encoded)
    × (load_claims toy_crypto encoded ≡ some claims)
    × (50 ≤ or_default claims.exp 0)
    × (user_of_claims claims ≡ ok demo_user)
validate-signed_example =
    validate-signed toy_crypto (text "secret") 50 demo_token demo_user
      (validate-create toy_crypto toy_crypto-CryptoLaws (text "secret") 60 0 50 demo_user)

abbrev demo_record : UserRecord
demo_record = signup_record toy_crypto demo_settings (text "salt") (text "8") (text "pass") none

abbrev demo_answer : AuthResponse
demo_answer = build_auth_response toy_crypto demo_settings lowercase 0 (text "r") demo_record

signing_up :
    signup toy_crypto demo_settings lowercase 0
      (text "r")
      (text "salt")
      (record { employee_id = text " 8"; password = text "pass"; display_name = none })
      []
    ≡ (ok demo_answer, demo_record ∷ [])
unfolding signup register_user normalize_employee_id strip lstrip rstrip is_space validate_password
    get_user find create_user any signup_record build_member_user_record normalize_optional
signing_up = refl

signup-login_example :
    (again : AuthResponse) × (login toy_crypto demo_settings lowercase 9
        (text "r")
        (record { employee_id = text " 8"; password = text "pass" })
        (demo_record ∷ [])
      ≡ ok again)
    × (again.workspace ≡ demo_answer.workspace)
    × ((r : UserRecord) × (demo_answer.workspace.employee_id ≡ some r.employee_id)
        × (get_user (text "9") (demo_record ∷ [])
            ≡ (if text_eq r.employee_id (text "9") then some r else get_user (text "9") [])))
unfolding has_char
signup-login_example =
    signup-login toy_crypto demo_settings lowercase toy_crypto-CryptoLaws 0 9 (text "r")
      (text "salt")
      (record { employee_id = text " 8"; password = text "pass"; display_name = none }) []
      (demo_record ∷ []) demo_answer (text "9") refl signing_up

login_blank_example :
    login toy_crypto demo_settings lowercase 0
      (text "r")
      (record { employee_id = text " "; password = text "pass" })
      []
    ≡ raise auth_error
unfolding strip lstrip rstrip is_space
login_blank_example =
    login_blank toy_crypto demo_settings lowercase 0 (text "r")
      (record { employee_id = text " "; password = text "pass" }) [] refl

abbrev pub demo_key : ApiKeyRecord
demo_key = record {
  api_key = text "k";
  workspace_id = text "w1";
  workspace_name = text "Demo";
  role = text "admin";
}

demo_keys : parse_api_keys (text "k|w1|Demo|admin") ≡ ok (demo_key ∷ [])
unfolding parse_api_keys parse_entries read_api_key api_key_record split_on strip lstrip rstrip
    is_space contains text_eq
demo_keys = refl

abbrev pub with_key : Text → Request
with_key key = record { request_id = text "r"; api_key = some key; authorization = none }

pub asking :
    require_workspace_context toy_crypto demo_settings lowercase 0 (with_key (text "k"))
    ≡ ok (context_from_api_key (text "r") demo_key)
unfolding require_workspace_context context_by_key validate_api_key find_api_key compare_digest all
    text_eq context_of_found parse_api_keys parse_entries read_api_key api_key_record split_on strip
    lstrip rstrip is_space contains
asking = refl

context-authentic_example :
    ByKey toy_crypto demo_settings lowercase 0
      (with_key (text "k"))
      (context_from_api_key (text "r") demo_key)
    ⊎ ByToken toy_crypto demo_settings lowercase 0
        (with_key (text "k"))
        (context_from_api_key (text "r") demo_key)
context-authentic_example =
    context-authentic toy_crypto demo_settings lowercase 0 (with_key (text "k"))
      (context_from_api_key (text "r") demo_key) asking

key_not_ascii_example :
    require_workspace_context toy_crypto demo_settings lowercase 0 (with_key (233 ∷ []))
    ≡ raise (other (text "TypeError"))
unfolding all
key_not_ascii_example =
    key_not_ascii toy_crypto demo_settings lowercase 0 (with_key (233 ∷ [])) 233 [] demo_key [] refl
      demo_keys refl
