-- ===== src/Core/Readiness/Ready.antt =====
-- When the answer is "ready".
use doc_search_ai.Core.Readiness.{
  Settings, OperationalCheck, is_production, failed_configuration, collect_configuration_checks,
  uses_development_api_key, probed, run_probe, check_dependencies, collect_checks,
  build_readiness_response, uses_postgres,
}
use mathlib.Core.Path.{ap₂}
use doc_search_ai.Text.{Text, text, text_eq, strip, split_on}
use doc_search_ai.Common.{
  ◌≡◌, refl, Bool, true, false, not, ◌&&◌, ◌||◌, List, [], ◌∷◌, ◌++◌, map, all, Result, ok, raise,
  arith, Result-cases, inl, inr, Bool-cases, ◌∙◌, if◌then◌else◌, any,
}

abbrev pub reached : Result Text (Unit {0}) → Bool
reached (ok _) = true
reached (raise message) = false

all-append : {A : Type 0} (p : A → Bool) (l m : List A) → all p (l ++ m) ≡ (all p l && all p m)
unfolding all
all-append p [] m = refl
all-append p (c ∷ l) m = ground (arith, all-append p l m)

all-if_one :
    {A : Type 0} (p : A → Bool) (b : Bool) (x : A)
    → all p (if b then x ∷ [] else []) ≡ (not b || p x)
unfolding all
all-if_one p true x = ground arith
all-if_one p false x = refl

-- The environment is "production", whatever its case and the white space around it.
abbrev pub in_production : (Text → Text) → Settings → Bool
in_production lower settings = text_eq (lower (strip settings.app_env)) (text "production")

-- An entry of the API keys has the default one before its first "|".
abbrev pub has_default_key : Settings → Bool
has_default_key settings =
    any
      (λ entry.
        text_eq (elim (split_on 124 entry) [ [] ↦ [] | key ∷ fields ↦ strip key ])
          (text "local-dev-key"))
      (split_on 59 settings.api_keys)

module _ (probe : Text → Result Text (Unit {0})) where
  probes-ready :
      (l : List (Text × Text))
      → all (λ c. c.ready) (map (run_probe probe) l)
        ≡ all (λ (d : Text × Text). reached (probe d.0)) l
  unfolding all run_probe
  probes-ready [] = refl
  probes-ready ((name, display) ∷ l) = elim (Result-cases (probe name)) [
    | inl (_, e) ↦ rw (all, run_probe, e) (probes-ready l)
    | inr (m, e) ↦ rw (all, run_probe, e) refl
  ]

  configuration-ready :
      (lower : Text → Text) (settings : Settings)
      → all (λ c. c.ready) (collect_configuration_checks lower settings) ≡ (
          not (is_production lower settings)
          || (not (uses_development_api_key settings.api_keys) && not settings.debug))
  unfolding collect_configuration_checks failed_configuration all
  configuration-ready lower settings = ground arith

  -- Every dependency that is checked is reached: Qdrant, MinIO and vLLM; PostgreSQL where the audit
  -- log or the metadata are kept there; Redis where the queue or the rate limiter use it; the
  -- services of embedding and of reranking where they are used.
  abbrev pub all_reached : Settings → Bool
  all_reached settings =
      (not (
          text_eq settings.audit_log_backend (text "postgres")
          || text_eq settings.document_metadata_backend (text "postgres"))
        || reached (probe (text "postgres")))
      && (reached (probe (text "qdrant"))
          && reached (probe (text "minio"))
          && reached (probe (text "vllm"))
          && ((not (
                  text_eq settings.indexing_queue_backend (text "redis")
                  || text_eq settings.rate_limit_backend (text "redis"))
                || reached (probe (text "redis")))
              && ((not (text_eq settings.embedding_backend (text "bge"))
                    || reached (probe (text "embedding")))
                  && (not (text_eq settings.reranker_backend (text "bge"))
                      || reached (probe (text "reranker"))))))

  probed-reached :
      (settings : Settings)
      → all (λ (d : Text × Text). reached (probe d.0)) (probed settings) ≡ all_reached settings
  unfolding probed uses_postgres all
  probed-reached settings =
      let at : Text × Text → Bool = λ d. reached (probe d.0) in
      let redis =
        text_eq settings.indexing_queue_backend (text "redis")
        || text_eq settings.rate_limit_backend (text "redis") in
      let embedding = text_eq settings.embedding_backend (text "bge") in
      let reranker = text_eq settings.reranker_backend (text "bge") in
      let always =
        (text "qdrant", text "Qdrant")
        ∷ (text "minio", text "MinIO")
        ∷ (text "vllm", text "vLLM")
        ∷ [] in
      let always_reached : all at always ≡ (
          reached (probe (text "qdrant"))
          && reached (probe (text "minio"))
          && reached (probe (text "vllm"))) =
        ground arith in
      let last = all-if_one at reranker (text "reranker", text "BGE Reranker") in
      let third =
        all-append at (if embedding then (text "embedding", text "BGE Embedding") ∷ [] else [])
          (if reranker then (text "reranker", text "BGE Reranker") ∷ [] else [])
        ∙ ap₂ ◌&&◌ (all-if_one at embedding (text "embedding", text "BGE Embedding")) last in
      let second =
        all-append at (if redis then (text "redis", text "Redis") ∷ [] else []) _
        ∙ ap₂ ◌&&◌ (all-if_one at redis (text "redis", text "Redis")) third in
      all-append at _ _
      ∙ ap₂ ◌&&◌ (all-if_one at (uses_postgres settings) (text "postgres", text "PostgreSQL"))
          (all-append at always _ ∙ ap₂ ◌&&◌ always_reached second)

  readiness-parts :
      (lower : Text → Text) (settings : Settings)
      → (build_readiness_response probe lower settings).ready ≡ (
          (not (is_production lower settings)
            || (not (uses_development_api_key settings.api_keys) && not settings.debug))
          && (not settings.dependency_health_checks_enabled || all_reached settings))
  unfolding build_readiness_response collect_checks check_dependencies all is_production
      collect_configuration_checks text_eq strip failed_configuration probed
      uses_development_api_key any uses_postgres
  readiness-parts lower settings =
      let checks = collect_configuration_checks lower settings in
      elim (Bool-cases settings.dependency_health_checks_enabled) [
        | inr off ↦ rw (collect_checks, off) (configuration-ready lower settings ∙ ground arith)
        | inl on ↦ elim (Bool-cases (all (λ c. c.ready) checks)) [
          | inl fine ↦
              rw
                (
                  collect_checks,
                  on,
                  fine,
                  all-append (λ (c : OperationalCheck). c.ready) checks
                      (check_dependencies probe settings),
                  check_dependencies,
                  probes-ready (probed settings),
                  probed-reached settings,
                  ← (configuration-ready lower settings),
                )
                (ground (arith, fine))
          | inr bad ↦
              rw (collect_checks, on, bad, ← (configuration-ready lower settings))
                (ground (arith, bad))
        ]
      ]

  -- The service is ready exactly if its configuration is fit (outside production any is, in
  -- production the default API key and the debug mode are not) and, where the checks of
  -- dependencies are enabled, all of these are reached: Qdrant, MinIO and vLLM; PostgreSQL where the
  -- audit log or the metadata, whatever the users, are kept there; Redis where the queue or the rate
  -- limiter use it; the services of embedding and of reranking where they are used.
  pub readiness-exact :
      (lower : Text → Text) (settings : Settings)
      → (build_readiness_response probe lower settings).ready ≡ (
          (not (in_production lower settings)
            || (not (has_default_key settings) && not settings.debug))
          && (not settings.dependency_health_checks_enabled || all_reached settings))
  unfolding is_production uses_development_api_key
  readiness-exact lower settings = readiness-parts lower settings
