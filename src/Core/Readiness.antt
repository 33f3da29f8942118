-- ===== src/Core/Readiness.antt =====
-- backend/app/core/operations.py and backend/app/core/dependency_health.py: when the service says
-- that it is ready. `lower` is `str.lower`; a probe tries to reach a dependency, given by its name.
pub mod Ready
use doc_search_ai.Core.Events.{OperationEvent, error}
use doc_search_ai.Jobs.Base.{Events, record_if_any}
use doc_search_ai.Text.{Text, text, text_eq, strip, split_on, contains}
use doc_search_ai.Common.{
  Bool, true, false, not, ◌&&◌, ◌||◌, List, [], ◌∷◌, ◌++◌, map, all, any, null, Result, ok, raise,
  if◌then◌else◌,
}

pub record Settings : Type 0 where
  pub app_env : Text
  pub debug : Bool
  pub api_keys : Text
  pub dependency_health_checks_enabled : Bool
  pub audit_log_backend : Text
  pub auth_user_backend : Text
  pub document_metadata_backend : Text
  pub indexing_queue_backend : Text
  pub rate_limit_backend : Text
  pub embedding_backend : Text
  pub reranker_backend : Text

pub record OperationalCheck : Type 0 where
  pub name : Text
  pub ready : Bool
  pub message : Text

pub record ReadinessResponse : Type 0 where
  pub ready : Bool
  pub service : Text
  pub checks : List OperationalCheck

abbrev pub default_api_key : Text
default_api_key = text "local-dev-key"

abbrev pub dependency_check_names : List Text
dependency_check_names =
    text "postgres"
    ∷ text "qdrant"
    ∷ text "minio"
    ∷ text "vllm"
    ∷ text "redis"
    ∷ text "reranker"
    ∷ []

-- `entry.split("|", maxsplit=1)[0].strip()`
abbrev pub key_of_entry : Text → Text
key_of_entry entry = elim (split_on 124 entry) [ [] ↦ [] | first ∷ rest ↦ strip first ]

unfoldable pub uses_development_api_key : Text → Bool
uses_development_api_key raw_api_keys =
    any (λ entry. text_eq (key_of_entry entry) default_api_key) (split_on 59 raw_api_keys)

abbrev pub configuration_ready : OperationalCheck
configuration_ready = record {
  name = text "configuration";
  ready = true;
  message = text "운영 설정 기준을 통과했습니다.";
}

abbrev pub failed_check : Text → Text → OperationalCheck
failed_check name message = record { name = name; ready = false; message = message }

module _ (lower : Text → Text) where
  unfoldable pub is_production : Settings → Bool
  is_production settings = text_eq (lower (strip settings.app_env)) (text "production")

  -- The checks that fail in production.
  unfoldable pub failed_configuration : Settings → List OperationalCheck
  failed_configuration settings =
      (if uses_development_api_key settings.api_keys
        then failed_check (text "api_keys") (text "운영 환경에서는 개발 기본 API Key를 교체해야 합니다.") ∷ []
        else [])
      ++ (if settings.debug
          then failed_check (text "debug") (text "운영 환경에서는 DEBUG를 비활성화해야 합니다.") ∷ []
          else [])

  unfoldable pub collect_configuration_checks : Settings → List OperationalCheck
  collect_configuration_checks settings =
      let failed = failed_configuration settings in
      if not (is_production settings)
      then configuration_ready ∷ []
      else if null failed
      then configuration_ready ∷ []
      else failed

unfoldable pub uses_postgres : Settings → Bool
uses_postgres settings =
    text_eq settings.audit_log_backend (text "postgres")
    || text_eq settings.document_metadata_backend (text "postgres")

-- The names of the dependencies that are probed, with those that are displayed.
unfoldable pub probed : Settings → List (Text × Text)
probed settings =
    (if uses_postgres settings then (text "postgres", text "PostgreSQL") ∷ [] else [])
    ++ (((text "qdrant", text "Qdrant")
          ∷ (text "minio", text "MinIO")
          ∷ (text "vllm", text "vLLM")
          ∷ [])
        ++ ((if text_eq settings.indexing_queue_backend (text "redis")
                || text_eq settings.rate_limit_backend (text "redis")
              then (text "redis", text "Redis") ∷ []
              else [])
            ++ ((if text_eq settings.embedding_backend (text "bge")
                  then (text "embedding", text "BGE Embedding") ∷ []
                  else [])
                ++ (if text_eq settings.reranker_backend (text "bge")
                    then (text "reranker", text "BGE Reranker") ∷ []
                    else []))))

module _ (probe : Text → Result Text (Unit {0})) where
  unfoldable pub run_probe : Text × Text → OperationalCheck
  run_probe (name, display_name) = elim (probe name) [
    | raise message ↦ failed_check name (display_name ++ (text " 연결에 실패했습니다: " ++ message))
    | ok _ ↦ record { name = name; ready = true; message = display_name ++ text " 연결을 확인했습니다." }
  ]

  unfoldable pub check_dependencies : Settings → List OperationalCheck
  check_dependencies settings = map run_probe (probed settings)

  unfoldable pub collect_checks : (Text → Text) → Settings → List OperationalCheck
  collect_checks lower settings =
      let checks = collect_configuration_checks lower settings in
      if settings.dependency_health_checks_enabled && all (λ c. c.ready) checks
      then checks ++ check_dependencies settings
      else checks

  unfoldable pub build_readiness_response : (Text → Text) → Settings → ReadinessResponse
  build_readiness_response lower settings =
      let checks = collect_checks lower settings in
      record { ready = all (λ c. c.ready) checks; service = text "docsearch-ai"; checks = checks }

abbrev pub dependency_event : OperationalCheck → OperationEvent
dependency_event check = record {
  event_type = text "dependency.health_failed";
  severity = error;
  source = check.name;
  message = check.message;
  details = (text "check", check.name) ∷ [];
}

unfoldable pub record_dependency_failure_events : List OperationalCheck → Events → Events
record_dependency_failure_events [] events = events
record_dependency_failure_events (check ∷ checks) events = record_dependency_failure_events checks (
    if check.ready || not (contains dependency_check_names check.name)
    then events
    else record_if_any (dependency_event check) events)
