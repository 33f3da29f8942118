-- ===== src/Examples/Operations.antt =====
-- A development setup of which one dependency is down.
use doc_search_ai.Core.Readiness.{Settings, build_readiness_response}
use doc_search_ai.Core.Readiness.Ready.{
  readiness-exact, all_reached, in_production, has_default_key,
}
use doc_search_ai.Text.{Text, text, text_eq}
use doc_search_ai.Common.{◌≡◌, true, not, ◌&&◌, ◌||◌, Result, ok, raise, if◌then◌else◌}

abbrev local_settings : Settings
local_settings = record {
  app_env = text "local";
  debug = true;
  api_keys = text "local-dev-key|w1|Demo";
  dependency_health_checks_enabled = true;
  audit_log_backend = text "memory";
  auth_user_backend = text "postgres";
  document_metadata_backend = text "postgres";
  indexing_queue_backend = text "inprocess";
  rate_limit_backend = text "memory";
  embedding_backend = text "deterministic";
  reranker_backend = text "score";
}

abbrev no_database : Text → Result Text (Unit {0})
no_database name = if text_eq name (text "postgres") then raise (text "refused") else ok tt

readiness-exact_example : (build_readiness_response no_database (λ s. s) local_settings).ready ≡ (
    (not (in_production (λ s. s) local_settings)
      || (not (has_default_key local_settings) && not true))
    && (not true || all_reached no_database local_settings))
readiness-exact_example = readiness-exact no_database (λ s. s) local_settings
