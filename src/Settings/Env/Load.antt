-- ===== src/Settings/Env/Load.antt =====
-- config.py, `load_settings_from_env`: the numbers, the fields at their types, and their validation.
use saa_s_governance_layer_r.Common.{
  ◌≡◌, ◌⊎◌, ap, true, false, [], Option, none, some, Text, codes, text_eq, ℤ, lookup, Result, ok,
  err, ◌>>=◌, >>=-eq-ok, ok-injective,
}
use saa_s_governance_layer_r.Settings.{
  SettingsError, AppSettings, AuthMode, model_validate, is_local,
}
use saa_s_governance_layer_r.Settings.Guards.{model_validate-guards}
use saa_s_governance_layer_r.Settings.Env.{
  LoadError, value_error, invalid_configuration, parse_bool, Env, getenv, getenv_or_none, read_list,
  parse_value, auth_modes, quota_modes, billing_modes, audit_sink_modes, adapter_governance_modes,
  security_posture_modes, tokenizer_modes, not_negative,
}

-- The numbers of the environment, before they are validated.
pub record RawNumbers : Type 0 where
  pub upstream_timeout_ms : ℤ
  pub oidc_leeway_seconds : ℤ
  pub jwks_cache_ttl_seconds : ℤ
  pub quota_window_seconds : ℤ
  pub redis_quota_concurrency_ttl_seconds : ℤ
  pub billing_batch_max_records : ℤ
  pub billing_flush_interval_ms : ℤ
  pub billing_queue_max_records : ℤ
  pub billing_lru_max_request_ids : ℤ

module _ (int_of float_ms_of : Text → Option ℤ) (expanduser : Text → Text) where
  abbrev number : Option ℤ → Result LoadError ℤ
  number none = err value_error
  number (some n) = ok n

  unfoldable pub read_numbers : Env → Result LoadError RawNumbers
  read_numbers env = do
    timeout ← number (float_ms_of (getenv env (codes "APP_UPSTREAM_TIMEOUT_SECONDS") (codes "30")))
    leeway ← number (int_of (getenv env (codes "APP_OIDC_LEEWAY_SECONDS") (codes "60")))
    jwks_ttl ← number (int_of (getenv env (codes "APP_JWKS_CACHE_TTL_SECONDS") (codes "300")))
    window ← number (int_of (getenv env (codes "APP_QUOTA_WINDOW_SECONDS") (codes "60")))
    redis_ttl ←
        number (int_of (getenv env (codes "APP_REDIS_QUOTA_CONCURRENCY_TTL_SECONDS") (codes "900")))
    batch ← number (int_of (getenv env (codes "APP_BILLING_BATCH_MAX_RECORDS") (codes "1000")))
    interval ←
        number (float_ms_of (getenv env (codes "APP_BILLING_FLUSH_INTERVAL_SECONDS") (codes "5")))
    queue ← number (int_of (getenv env (codes "APP_BILLING_QUEUE_MAX_RECORDS") (codes "10000")))
    lru ← number (int_of (getenv env (codes "APP_BILLING_LRU_MAX_REQUEST_IDS") (codes "100000")))
    ok (record {
      upstream_timeout_ms = timeout;
      oidc_leeway_seconds = leeway;
      jwks_cache_ttl_seconds = jwks_ttl;
      quota_window_seconds = window;
      redis_quota_concurrency_ttl_seconds = redis_ttl;
      billing_batch_max_records = batch;
      billing_flush_interval_ms = interval;
      billing_queue_max_records = queue;
      billing_lru_max_request_ids = lru;
    })

  -- The fields at their declared types.
  unfoldable pub typed_settings : Env → RawNumbers → Result LoadError AppSettings
  unfolding parse_bool getenv_or_none read_list
  typed_settings env n = do
    auth_mode ← parse_value auth_modes (getenv env (codes "APP_AUTH_MODE") (codes "mock"))
    timeout ← not_negative n.upstream_timeout_ms
    leeway ← not_negative n.oidc_leeway_seconds
    jwks_ttl ← not_negative n.jwks_cache_ttl_seconds
    quota_mode ← parse_value quota_modes (getenv env (codes "APP_QUOTA_MODE") (codes "in_memory"))
    window ← not_negative n.quota_window_seconds
    redis_ttl ← not_negative n.redis_quota_concurrency_ttl_seconds
    tokenizer_mode ←
        parse_value tokenizer_modes (getenv env (codes "APP_TOKENIZER_MODE") (codes "utf8_bytes"))
    billing_mode ←
        parse_value billing_modes (getenv env (codes "APP_BILLING_MODE") (codes "observability"))
    batch ← not_negative n.billing_batch_max_records
    interval ← not_negative n.billing_flush_interval_ms
    queue ← not_negative n.billing_queue_max_records
    lru ← not_negative n.billing_lru_max_request_ids
    audit_sink ← parse_value audit_sink_modes (getenv env (codes "APP_AUDIT_SINK") (codes "stdout"))
    governance ←
        parse_value adapter_governance_modes
          (getenv env (codes "APP_ADAPTER_GOVERNANCE_MODE") (codes "allowlist_only"))
    posture ←
        parse_value security_posture_modes
          (getenv env (codes "APP_SECURITY_POSTURE_MODE") (codes "audit"))
    ok (record {
      tenant_registry_path =
          expanduser
            (getenv env (codes "APP_TENANT_REGISTRY_PATH") (codes "./config/tenants.yaml"));
      auth_mode = auth_mode;
      allow_mock_auth_header = parse_bool (lookup (codes "APP_ALLOW_MOCK_AUTH_HEADER") env) true;
      unsafe_allow_mock_auth_outside_local =
          parse_bool (lookup (codes "APP_UNSAFE_ALLOW_MOCK_AUTH_OUTSIDE_LOCAL") env) false;
      mock_upstream = parse_bool (lookup (codes "APP_MOCK_UPSTREAM") env) true;
      upstream_base_url =
          getenv env (codes "APP_UPSTREAM_BASE_URL")
            (codes "http://aibrix-gateway.aibrix-system.svc.cluster.local");
      upstream_timeout_ms = timeout;
      oidc_algorithms = read_list (getenv env (codes "APP_OIDC_ALGORITHMS") (codes "RS256"));
      oidc_required_token_use = getenv_or_none env (codes "APP_OIDC_REQUIRED_TOKEN_USE");
      oidc_required_scopes = read_list (getenv env (codes "APP_OIDC_REQUIRED_SCOPES") []);
      oidc_required_groups = read_list (getenv env (codes "APP_OIDC_REQUIRED_GROUPS") []);
      oidc_leeway_seconds = leeway;
      oidc_require_nbf = parse_bool (lookup (codes "APP_OIDC_REQUIRE_NBF") env) false;
      jwks_cache_ttl_seconds = jwks_ttl;
      environment = getenv env (codes "APP_ENVIRONMENT") (codes "local");
      log_level = getenv env (codes "APP_LOG_LEVEL") (codes "INFO");
      quota_mode = quota_mode;
      quota_window_seconds = window;
      redis_quota_url = getenv env (codes "APP_REDIS_QUOTA_URL") (codes "redis://localhost:6379/0");
      redis_quota_key_prefix =
          getenv env (codes "APP_REDIS_QUOTA_KEY_PREFIX") (codes "aibrix-gateway");
      redis_quota_concurrency_ttl_seconds = redis_ttl;
      tokenizer_mode = tokenizer_mode;
      tokenizer_name = getenv env (codes "APP_TOKENIZER_NAME") (codes "cl100k_base");
      tokenizer_path = getenv_or_none env (codes "APP_TOKENIZER_PATH");
      require_production_tokenizer =
          parse_bool (lookup (codes "APP_REQUIRE_PRODUCTION_TOKENIZER") env) true;
      billing_mode = billing_mode;
      billing_ledger_path =
          expanduser
            (getenv env (codes "APP_BILLING_LEDGER_PATH") (codes "./var/billing-ledger.jsonl"));
      aws_billing_s3_bucket = getenv_or_none env (codes "APP_AWS_BILLING_S3_BUCKET");
      aws_billing_s3_prefix =
          getenv env (codes "APP_AWS_BILLING_S3_PREFIX") (codes "billing-ledger/");
      aws_billing_dynamodb_table = getenv_or_none env (codes "APP_AWS_BILLING_DYNAMODB_TABLE");
      aws_region = elim (getenv_or_none env (codes "AWS_REGION")) [
        | some region ↦ some region
        | none ↦ getenv_or_none env (codes "APP_AWS_REGION")
      ];
      billing_batch_max_records = batch;
      billing_flush_interval_ms = interval;
      billing_queue_max_records = queue;
      billing_lru_max_request_ids = lru;
      allow_streaming_without_billing_usage =
          parse_bool (lookup (codes "APP_ALLOW_STREAMING_WITHOUT_BILLING_USAGE") env) false;
      audit_sink = audit_sink;
      audit_log_path =
          expanduser (getenv env (codes "APP_AUDIT_LOG_PATH") (codes "./var/audit.jsonl"));
      adapter_governance_mode = governance;
      security_posture_mode = posture;
      require_private_upstream =
          parse_bool (lookup (codes "APP_REQUIRE_PRIVATE_UPSTREAM") env) true;
      metrics_enabled = parse_bool (lookup (codes "APP_METRICS_ENABLED") env) true;
    })

  abbrev validated : Result SettingsError AppSettings → Result LoadError AppSettings
  validated (err e) = err invalid_configuration
  validated (ok settings) = ok settings

  unfoldable pub load_settings_from_env : Env → Result LoadError AppSettings
  unfolding read_numbers typed_settings model_validate
  load_settings_from_env env =
      read_numbers env
      >>= (λ numbers. typed_settings env numbers >>= (λ raw. validated (model_validate raw)))

  validated_lem :
      (m : Result SettingsError AppSettings) (s : AppSettings) → validated m ≡ ok s → m ≡ ok s
  validated_lem (ok settings) s h = ap ok (ok-injective h)
  validated_lem (err e) s h = cc h

  -- Settings that are loaded use mock authentication only in a local environment or with the unsafe
  -- override.
  pub load_settings_from_env-IsGuarded :
      (env : Env) (s : AppSettings)
      → load_settings_from_env env ≡ ok s
      → s.auth_mode ≡ AuthMode.mock
      → (is_local s.environment ≡ true) ⊎ (s.unsafe_allow_mock_auth_outside_local ≡ true)
  unfolding load_settings_from_env
  load_settings_from_env-IsGuarded env s h =
      let (numbers, read, later) = >>=-eq-ok (read_numbers env) _ h in
      let (raw, typed, last) =
        >>=-eq-ok (typed_settings env numbers) (λ raw. validated (model_validate raw)) later in
      (model_validate-guards raw s (validated_lem (model_validate raw) s last)).1
