-- ===== src/Auth/Models.antt =====
-- backend/app/auth/models.py
use doc_search_ai.Common.{Option, List, [], ◌∷◌}
use doc_search_ai.Text.{Text, text}

abbrev pub member_role : Text
member_role = text "member"

abbrev pub admin_role : Text
admin_role = text "admin"

abbrev pub supported_roles : List Text
supported_roles = member_role ∷ admin_role ∷ []

pub record ApiKeyRecord : Type 0 where
  pub api_key : Text
  pub workspace_id : Text
  pub workspace_name : Text
  pub role : Text

pub record UserRecord : Type 0 where
  pub employee_id : Text
  pub password_hash : Text
  pub workspace_id : Text
  pub workspace_name : Text
  pub role : Text
  pub display_name : Option Text

pub record WorkspaceContext : Type 0 where
  pub request_id : Text
  pub workspace_id : Text
  pub workspace_name : Text
  pub role : Text
  pub employee_id : Option Text
  pub display_name : Option Text

pub record LoginRequest : Type 0 where
  pub employee_id : Text
  pub password : Text

pub record SignupRequest : Type 0 where
  pub employee_id : Text
  pub password : Text
  pub display_name : Option Text

pub record AuthResponse : Type 0 where
  pub access_token : Text
  pub token_type : Text
  pub workspace : WorkspaceContext
