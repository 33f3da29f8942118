-- ===== src/Auth/Service.antt =====
-- backend/app/auth/service.py: `AuthService`, over `InMemoryAuthUserStore` of store.py: the state is
-- its dictionary, as the list of its records, no two of which have the same employee id.
pub mod Accounts
use doc_search_ai.Auth.Models.{UserRecord, member_role}
use doc_search_ai.Auth.Tokens.{Crypto, hash_password, verify_password}
use doc_search_ai.Auth.Keys.{normalize_optional}
use doc_search_ai.Steps.{Steps, pure, lift, ◌>>=◌, ◌>>◌}
use doc_search_ai.Errors.{Raises, auth_error, duplicate_user, invalid_credentials}
use doc_search_ai.Text.{Text, text_eq, strip}
use doc_search_ai.Common.{
  ℕ, Bool, true, false, not, Option, none, some, List, [], ◌∷◌, ◌++◌, find, filter, ltb, length,
  null, ok, raise, raise_if, if◌then◌else◌, any,
}

abbrev pub Users : Type 0
Users = List UserRecord

abbrev pub has_id : Text → UserRecord → Bool
has_id employee_id r = text_eq r.employee_id employee_id

unfoldable pub get_user : Text → Users → Option UserRecord
get_user employee_id users = find (has_id employee_id) users

unfoldable pub create_user : UserRecord → Users → Bool × Users
create_user r users =
    if any (has_id r.employee_id) users then (false, users) else (true, users ++ r ∷ [])

-- `{record.employee_id: record for record in seed_users}`: a later record replaces an earlier one.
unfoldable pub seed_users : List UserRecord → Users
seed_users [] = []
seed_users (r ∷ records) =
    let rest = seed_users records in if any (has_id r.employee_id) rest then rest else r ∷ rest

pub record AuthSettings : Type 0 where
  pub auth_token_secret : Text
  pub auth_token_ttl_seconds : ℕ
  pub signup_default_workspace_id : Text
  pub signup_default_workspace_name : Text
  pub api_keys : Text

unfoldable pub normalize_employee_id : Text → Raises Text
normalize_employee_id employee_id =
    let normalized = strip employee_id in
    if null normalized then raise auth_error else ok normalized

unfoldable pub validate_password : Text → Raises (Unit {0})
validate_password password = raise_if (ltb (length password) 4) auth_error

unfoldable pub build_member_user_record : Text → Text → Text → Text → Option Text → UserRecord
build_member_user_record employee_id password_hash workspace_id workspace_name display_name =
    record {
      employee_id = employee_id;
      password_hash = password_hash;
      workspace_id = workspace_id;
      workspace_name = workspace_name;
      role = member_role;
      display_name = display_name;
    }

-- `if self._user_store.get_user(...) is not None: raise`
abbrev pub refuse_known : Text → Steps Users (Unit {0})
refuse_known employee_id users = elim (get_user employee_id users) [
  | none ↦ (ok tt, users)
  | some r ↦ (raise duplicate_user, users)
]

abbrev pub add_user : UserRecord → Steps Users (Unit {0})
add_user r users =
    let (created, users') = create_user r users in (raise_if (not created) duplicate_user, users')

module _ (crypto : Crypto) (settings : AuthSettings) where
  -- The record that a signup makes, with a new salt.
  unfoldable pub signup_record : Text → Text → Text → Option Text → UserRecord
  signup_record salt employee_id password display_name =
      build_member_user_record employee_id (hash_password crypto salt password)
        settings.signup_default_workspace_id settings.signup_default_workspace_name
        (normalize_optional display_name)

  unfoldable pub register_user : Text → Text → Text → Option Text → Steps Users UserRecord
  register_user salt employee_id password display_name = do
    normalized ← lift (normalize_employee_id employee_id)
    lift (validate_password password)
    refuse_known normalized
    add_user (signup_record salt normalized password display_name)
    pure (signup_record salt normalized password display_name)

-- A record whose password is the given one.
unfoldable pub check_record : Crypto → Text → Option UserRecord → Raises UserRecord
check_record crypto password none = raise invalid_credentials
check_record crypto password (some r) = elim (verify_password crypto password r.password_hash) [
  | raise e ↦ raise e
  | ok verified ↦ (if verified then ok r else raise invalid_credentials)
]

unfoldable pub authenticate_user : Crypto → Text → Text → Users → Raises UserRecord
authenticate_user crypto employee_id password users = elim (normalize_employee_id employee_id) [
  | raise e ↦ raise e
  | ok normalized ↦ check_record crypto password (get_user normalized users)
]
