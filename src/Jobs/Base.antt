-- ===== src/Jobs/Base.antt =====
-- backend/app/jobs/base.py
use doc_search_ai.Core.Events.{OperationEvent, EventStore, record_event}
use doc_search_ai.Common.{Option, List, ℕ, some, ◌∷◌, [], none, ◌≡◌, ap, arith, false, refl}
use doc_search_ai.Text.{Text, text, text_eq}

pub record IndexDocumentJob : Type 0 where
  pub job_id : Text
  pub workspace_id : Text
  pub workspace_name : Text
  pub document_id : Text
  pub filename : Text
  pub content_type : Text
  pub storage_key : Text
  pub uploaded_by_employee_id : Option Text
  pub security_level : Text
  pub attempt : ℕ
  pub max_attempts : ℕ

abbrev pub status_queued : Text
status_queued = text "queued"

abbrev pub status_processing : Text
status_processing = text "processing"

abbrev pub status_completed : Text
status_completed = text "completed"

abbrev pub status_failed : Text
status_failed = text "failed"

first_char : Text → ℕ
first_char [] = 0
first_char (c ∷ s) = c

pub queued-failed_apart : ¬ (status_queued ≡ status_failed)
unfolding first_char
queued-failed_apart h = let e : ◌≡◌ {A = ℕ} 113 102 = ap first_char h in absurd (omega arith)

pub text_eq-failed : text_eq status_failed status_queued ≡ false
unfolding text_eq
text_eq-failed = refl

pub record JobDispatchResult : Type 0 where
  pub job_id : Text
  pub status : Text
  pub chunk_count : ℕ
  pub failure_reason : Option Text

-- An optional event store: without one, nothing is recorded.
abbrev pub Events : Type 0
Events = Option EventStore

unfoldable pub record_if_any : OperationEvent → Events → Events
record_if_any event none = none
record_if_any event (some s) = some (record_event event s)

-- The details that all events of a job have.
abbrev pub job_details : IndexDocumentJob → List (Text × Text)
job_details job =
    (text "job_id", job.job_id)
    ∷ (text "workspace_id", job.workspace_id)
    ∷ (text "document_id", job.document_id)
    ∷ (text "filename", job.filename)
    ∷ []
