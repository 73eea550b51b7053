-- ===== src/Examples.antt =====
-- Sample data for the tests: two tenants in the manner of config/tenants.yaml, and local settings.
use saa_s_governance_layer_r.Common.{true, false, [], ◌∷◌, none, some, Text, codes, Dict}
use saa_s_governance_layer_r.Settings.{
  AppSettings, AuthMode, QuotaMode, BillingMode, AuditSinkMode, AdapterGovernanceMode,
  SecurityPostureMode, TokenizerMode,
}
use saa_s_governance_layer_r.Registry.{
  TenantLimits, AdapterArtifactPolicy, RuntimeIsolationPolicy, TenantConfig, TenantRegistry,
}

abbrev pub limits_a : TenantLimits
limits_a = record {
  requests_per_minute = some 2;
  input_tokens_per_minute = some 100;
  output_tokens_per_minute = none;
  concurrent_requests = some 2;
}

abbrev pub model_name : Text
model_name = codes "llama"

abbrev pub adapter_name : Text
adapter_name = codes "a-lora"

abbrev pub artifact_a : AdapterArtifactPolicy
artifact_a = record {
  artifact_uri = codes "s3://b/a";
  sha256 = codes "0123456789abcdef0123456789abcdef";
  signed_by = some (codes "kms");
  status = codes "active";
  compatible_models = model_name ∷ [];
}

abbrev isolation : RuntimeIsolationPolicy
isolation = record {
  mode = codes "shared_pool";
  kv_cache_isolation_required = false;
  kv_cache_isolation_proven = false;
  evidence = none;
}

abbrev pub tenant_named : Text → Text → Dict Text AdapterArtifactPolicy → TenantConfig
tenant_named name domain artifacts = record {
  tenant_id = name;
  domains = domain ∷ [];
  oidc_issuer = codes "iss";
  oidc_audience = codes "aud";
  oidc_jwks_url = some (codes "https://idp/jwks");
  tenant_claim = codes "tenant_id";
  user_claim = codes "sub";
  routing_external_filter = codes "tenant={tenant_id}";
  config_profile = codes "standard";
  user_header_template = codes "{tenant_id}:{user_id}";
  limits = limits_a;
  runtime_isolation = isolation;
  adapter_artifacts = artifacts;
  allowed_models = (model_name, record { allowed_lora_adapters = adapter_name ∷ [] }) ∷ [];
}

abbrev pub tenant_a : TenantConfig
tenant_a = tenant_named (codes "tenant-a") (codes "a.local") ((adapter_name, artifact_a) ∷ [])

abbrev pub tenant_b : TenantConfig
tenant_b = tenant_named (codes "tenant-b") (codes "b.local") []

abbrev pub registry : TenantRegistry
registry = record {
  tenants_by_id = (codes "tenant-a", tenant_a) ∷ (codes "tenant-b", tenant_b) ∷ [];
  tenants_by_domain = (codes "a.local", tenant_a) ∷ (codes "b.local", tenant_b) ∷ [];
}

abbrev pub settings : AppSettings
settings = record {
  tenant_registry_path = codes "./config/tenants.yaml";
  auth_mode = AuthMode.mock;
  allow_mock_auth_header = true;
  unsafe_allow_mock_auth_outside_local = false;
  mock_upstream = true;
  upstream_base_url = codes "http://gw.svc";
  upstream_timeout_ms = 30000;
  oidc_algorithms = codes "RS256" ∷ [];
  oidc_required_token_use = some (codes "access");
  oidc_required_scopes = codes "llm" ∷ [];
  oidc_required_groups = [];
  oidc_leeway_seconds = 60;
  oidc_require_nbf = false;
  jwks_cache_ttl_seconds = 300;
  environment = codes "local";
  log_level = codes "INFO";
  quota_mode = QuotaMode.in_memory;
  quota_window_seconds = 60;
  redis_quota_url = codes "redis://localhost:6379/0";
  redis_quota_key_prefix = codes "aibrix-gateway";
  redis_quota_concurrency_ttl_seconds = 900;
  tokenizer_mode = TokenizerMode.utf8_bytes;
  tokenizer_name = codes "cl100k_base";
  tokenizer_path = none;
  require_production_tokenizer = true;
  billing_mode = BillingMode.observability;
  billing_ledger_path = codes "./var/billing-ledger.jsonl";
  aws_billing_s3_bucket = none;
  aws_billing_s3_prefix = codes "billing-ledger/";
  aws_billing_dynamodb_table = none;
  aws_region = none;
  billing_batch_max_records = 1000;
  billing_flush_interval_ms = 5000;
  billing_queue_max_records = 10000;
  billing_lru_max_request_ids = 100000;
  allow_streaming_without_billing_usage = false;
  audit_sink = AuditSinkMode.stdout;
  audit_log_path = codes "./var/audit.jsonl";
  adapter_governance_mode = AdapterGovernanceMode.allowlist_only;
  security_posture_mode = SecurityPostureMode.audit;
  require_private_upstream = true;
  metrics_enabled = true;
}
