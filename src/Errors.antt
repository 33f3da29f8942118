-- ===== src/Errors.antt =====
-- The exceptions that the application raises, with the part of their content that a handler reads:
-- an HTTPException's status and detail code, a DocumentProcessingError's class, a message.
use doc_search_ai.Common.{ℕ, Result, ◌≡◌, ok, raise}
use doc_search_ai.Text.{Text, text}

-- The subclasses of `DocumentProcessingError`.
pub data ProcessingError : Type 0 where
  processing_failed unsupported_document_type empty_document corrupt_document document_too_large :
      ProcessingError

-- The class attribute `code`.
unfoldable pub error_code : ProcessingError → Text
error_code processing_failed = text "DOCUMENT_PROCESSING_FAILED"
error_code unsupported_document_type = text "DOCUMENT_UNSUPPORTED_TYPE"
error_code empty_document = text "DOCUMENT_EMPTY"
error_code corrupt_document = text "DOCUMENT_CORRUPT"
error_code document_too_large = text "DOCUMENT_TOO_LARGE"

pub data Exception : Type 0 where
  http : ℕ → Text → Exception
  processing : ProcessingError → Text → Exception
  security_permission : Exception
  document_not_found : Text → Exception
  embedding_provider reranker_provider llm_provider : Text → Exception
  auth_error duplicate_user invalid_credentials invalid_token : Exception
  value_error : Exception
  other : Text → Exception

abbrev pub Raises {ℓ} : Type ℓ → Type ℓ
Raises A = Result Exception A

-- `except` clauses that raise another exception instead.
abbrev pub translate : {A : Type 0} → (Exception → Exception) → Raises A → Raises A
translate handler (ok a) = ok a
translate handler (raise e) = raise (handler e)

pub translate-ok :
    {A : Type 0} (handler : Exception → Exception) (r : Raises A) {a : A}
    → translate handler r ≡ ok a
    → r ≡ ok a
translate-ok handler (ok x) h = h
translate-ok handler (raise e) h = cc
