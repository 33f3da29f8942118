-- ===== src/Documents/Models.antt =====
-- backend/app/documents/models.py. `uploaded_at` is a number of time units since an epoch.
use doc_search_ai.Common.{ℕ, Option, List, [], ◌∷◌}
use doc_search_ai.Text.{Text, text}

abbrev pub general_security_level : Text
general_security_level = text "general"

abbrev pub internal_security_level : Text
internal_security_level = text "internal"

abbrev pub confidential_security_level : Text
confidential_security_level = text "confidential"

abbrev pub restricted_security_level : Text
restricted_security_level = text "restricted"

abbrev pub supported_document_security_levels : List Text
supported_document_security_levels =
    general_security_level ∷ internal_security_level ∷ confidential_security_level
    ∷ restricted_security_level ∷ []

pub record DocumentRecord : Type 0 where
  pub document_id : Text
  pub workspace_id : Text
  pub workspace_name : Text
  pub uploaded_by_employee_id : Option Text
  pub security_level : Text
  pub filename : Text
  pub parser : Text
  pub character_count : ℕ
  pub text_preview : Text
  pub storage_key : Text
  pub indexing_job_id : Text
  pub indexing_status : Text
  pub indexing_error : Option Text
  pub chunk_count : ℕ
  pub uploaded_at : ℕ

-- A record without the time of the upload.
pub record DocumentUploadResponse : Type 0 where
  pub document_id : Text
  pub workspace_id : Text
  pub workspace_name : Text
  pub uploaded_by_employee_id : Option Text
  pub security_level : Text
  pub filename : Text
  pub parser : Text
  pub character_count : ℕ
  pub text_preview : Text
  pub storage_key : Text
  pub indexing_job_id : Text
  pub indexing_status : Text
  pub indexing_error : Option Text
  pub chunk_count : ℕ

pub record DocumentListResponse : Type 0 where
  pub documents : List DocumentRecord
  pub total : ℕ

pub record DocumentDeleteResponse : Type 0 where
  pub document_id : Text
  pub workspace_id : Text
  pub deleted : mathlib.Core.Bool.Bool
