-- ===== src/Auth/Router.antt =====
-- backend/app/auth/dependencies.py and router.py. A request has its id and the headers "X-API-Key"
-- and "Authorization"; `lower` is `str.lower`. The copy of the workspace that goes into the
-- request's state, for the logs, is left out.
pub mod Contexts
pub mod Statuses
use doc_search_ai.Auth.Models.{
  ApiKeyRecord, UserRecord, WorkspaceContext, AuthResponse, LoginRequest, SignupRequest, admin_role,
}
use doc_search_ai.Auth.Tokens.{Crypto, validate_access_token, create_access_token}
use doc_search_ai.Auth.Keys.{validate_api_key}
use doc_search_ai.Auth.Service.{AuthSettings, Users, register_user, authenticate_user}
use doc_search_ai.Steps.{Steps}
use doc_search_ai.Errors.{
  Exception, Raises, http, auth_error, duplicate_user, invalid_credentials, invalid_token,
  translate,
}
use doc_search_ai.Text.{Text, text, text_eq, split_once}
use doc_search_ai.Common.{
  ℕ, Option, none, some, [], ◌∷◌, null, not, ◌||◌, ok, raise, ◌>>=◌, ◌>>◌, if◌then◌else◌, raise_if,
}

pub record Request : Type 0 where
  pub request_id : Text
  pub api_key : Option Text
  pub authorization : Option Text

abbrev pub unauthorized : Text → Exception
unauthorized code = http 401 code

unfoldable pub context_from_api_key : Text → ApiKeyRecord → WorkspaceContext
context_from_api_key request_id r = record {
  request_id = request_id;
  workspace_id = r.workspace_id;
  workspace_name = r.workspace_name;
  role = r.role;
  employee_id = none;
  display_name = none;
}

unfoldable pub context_from_user : Text → UserRecord → WorkspaceContext
context_from_user request_id r = record {
  request_id = request_id;
  workspace_id = r.workspace_id;
  workspace_name = r.workspace_name;
  role = r.role;
  employee_id = some r.employee_id;
  display_name = r.display_name;
}

-- `s.partition(" ")`, without the separator.
unfoldable pub partition_space : Text → Text × Text
partition_space s = elim (split_once 32 s) [ none ↦ (s, []) | some parts ↦ parts ]

-- `record is None` after the lookup of a key.
unfoldable pub context_of_found : Text → Option ApiKeyRecord → Raises WorkspaceContext
context_of_found request_id none = raise (unauthorized (text "AUTH_INVALID_API_KEY"))
context_of_found request_id (some r) = ok (context_from_api_key request_id r)

-- A header that is there and not empty.
abbrev pub given : Option Text → Option Text
given none = none
given (some []) = none
given (some (c ∷ s)) = some (c ∷ s)

module _ (crypto : Crypto) (settings : AuthSettings) (lower : Text → Text) (now : ℕ) where
  unfoldable pub context_by_key : Text → Text → Raises WorkspaceContext
  context_by_key request_id api_key = do
    found ← validate_api_key settings.api_keys api_key
    context_of_found request_id found

  -- `except Exception`
  unfoldable pub context_by_token : Text → Text → Raises WorkspaceContext
  context_by_token request_id authorization =
      let parts = partition_space authorization in
      if not (text_eq (lower parts.0) (text "bearer")) || null parts.1
      then raise (unauthorized (text "AUTH_INVALID_TOKEN"))
      else (do
        r ←
            translate (λ e. unauthorized (text "AUTH_INVALID_TOKEN"))
              (validate_access_token crypto settings.auth_token_secret now parts.1)
        ok (context_from_user request_id r))

  unfoldable pub require_workspace_context : Request → Raises WorkspaceContext
  require_workspace_context request = elim (given request.api_key) [
    | some api_key ↦ context_by_key request.request_id api_key
    | none ↦ elim (given request.authorization) [
      | some authorization ↦ context_by_token request.request_id authorization
      | none ↦ raise (unauthorized (text "AUTH_MISSING_CREDENTIALS"))
    ]
  ]

  unfoldable pub require_admin_workspace_context : Request → Raises WorkspaceContext
  require_admin_workspace_context request = do
    context ← require_workspace_context request
    raise_if (not (text_eq context.role admin_role)) (http 403 (text "AUTH_FORBIDDEN_ROLE"))
    ok context

  unfoldable pub build_auth_response : Text → UserRecord → AuthResponse
  build_auth_response request_id user = record {
    access_token =
        create_access_token crypto settings.auth_token_secret settings.auth_token_ttl_seconds now
          user;
    token_type = text "bearer";
    workspace = context_from_user request_id user;
  }

  -- `except DuplicateUserError` and `except AuthError`, of which the former is a subclass.
  unfoldable pub on_signup_error : Exception → Exception
  on_signup_error duplicate_user = http 409 (text "AUTH_DUPLICATE_EMPLOYEE_ID")
  on_signup_error auth_error = http 400 (text "AUTH_INVALID_SIGNUP")
  on_signup_error invalid_credentials = http 400 (text "AUTH_INVALID_SIGNUP")
  on_signup_error invalid_token = http 400 (text "AUTH_INVALID_SIGNUP")
  on_signup_error e = e

  abbrev pub answer_signup : Text → Raises UserRecord × Users → Raises AuthResponse × Users
  answer_signup request_id (ok user, users) = (ok (build_auth_response request_id user), users)
  answer_signup request_id (raise e, users) = (raise (on_signup_error e), users)

  unfoldable pub signup : Text → Text → SignupRequest → Steps Users AuthResponse
  signup request_id salt body users =
      answer_signup request_id
        (register_user crypto settings salt body.employee_id body.password body.display_name users)

  unfoldable pub on_login_error : Exception → Exception
  on_login_error invalid_credentials = unauthorized (text "AUTH_INVALID_CREDENTIALS")
  on_login_error e = e

  unfoldable pub login : Text → LoginRequest → Users → Raises AuthResponse
  login request_id body users = do
    user ← translate on_login_error (authenticate_user crypto body.employee_id body.password users)
    ok (build_auth_response request_id user)
