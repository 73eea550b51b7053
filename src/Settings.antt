-- ===== src/Settings.antt =====
-- config.py: the modes, the settings, and the validators that pydantic runs over them.
-- Seconds that the source keeps as floats are whole milliseconds here; a path is its text.
pub mod Guards
pub mod Env
use mathlib.Core.List.{reverse}
use saa_s_governance_layer_r.Common.{
  ℕ, Bool, true, false, not, ◌&&◌, List, [], ◌∷◌, Option, none, some, Text, codes, strip, lower,
  contains, text_eq, is_some, is_empty, Result, ok, err, ◌>>=◌, ◌>>◌, guard, leb, nat_beq,
  if◌then◌else◌,
}

pub data AuthMode : Type 0 where
  mock oidc : AuthMode

pub data QuotaMode : Type 0 where
  disabled in_memory redis : QuotaMode

pub data BillingMode : Type 0 where
  disabled observability ledger_required aws_native_reference : BillingMode

pub data AuditSinkMode : Type 0 where
  disabled stdout jsonl : AuditSinkMode

pub data AdapterGovernanceMode : Type 0 where
  allowlist_only catalog_enforced : AdapterGovernanceMode

pub data SecurityPostureMode : Type 0 where
  audit enforce : SecurityPostureMode

pub data TokenizerMode : Type 0 where
  tiktoken hf_local utf8_bytes : TokenizerMode

abbrev pub local_environments : List Text
local_environments =
    codes "local" ∷ codes "dev" ∷ codes "development" ∷ codes "test" ∷ codes "ci" ∷ []

pub record AppSettings : Type 0 where
  pub tenant_registry_path : Text
  pub auth_mode : AuthMode
  pub allow_mock_auth_header : Bool
  pub unsafe_allow_mock_auth_outside_local : Bool
  pub mock_upstream : Bool
  pub upstream_base_url : Text
  pub upstream_timeout_ms : ℕ
  pub oidc_algorithms : List Text
  pub oidc_required_token_use : Option Text
  pub oidc_required_scopes : List Text
  pub oidc_required_groups : List Text
  pub oidc_leeway_seconds : ℕ
  pub oidc_require_nbf : Bool
  pub jwks_cache_ttl_seconds : ℕ
  pub environment : Text
  pub log_level : Text
  pub quota_mode : QuotaMode
  pub quota_window_seconds : ℕ
  pub redis_quota_url : Text
  pub redis_quota_key_prefix : Text
  pub redis_quota_concurrency_ttl_seconds : ℕ
  pub tokenizer_mode : TokenizerMode
  pub tokenizer_name : Text
  pub tokenizer_path : Option Text
  pub require_production_tokenizer : Bool
  pub billing_mode : BillingMode
  pub billing_ledger_path : Text
  pub aws_billing_s3_bucket : Option Text
  pub aws_billing_s3_prefix : Text
  pub aws_billing_dynamodb_table : Option Text
  pub aws_region : Option Text
  pub billing_batch_max_records : ℕ
  pub billing_flush_interval_ms : ℕ
  pub billing_queue_max_records : ℕ
  pub billing_lru_max_request_ids : ℕ
  pub allow_streaming_without_billing_usage : Bool
  pub audit_sink : AuditSinkMode
  pub audit_log_path : Text
  pub adapter_governance_mode : AdapterGovernanceMode
  pub security_posture_mode : SecurityPostureMode
  pub require_private_upstream : Bool
  pub metrics_enabled : Bool

pub data SettingsError : Type 0 where
  out_of_range mock_auth_outside_local tokenizer_path_missing s3_bucket_missing : SettingsError

-- The truth value of an optional text: `None` and the empty text are false.
abbrev pub is_given : Option Text → Bool
is_given none = false
is_given (some s) = not (is_empty s)

abbrev pub is_mock : AuthMode → Bool
is_mock AuthMode.mock = true
is_mock AuthMode.oidc = false

abbrev is_hf_local : TokenizerMode → Bool
is_hf_local TokenizerMode.hf_local = true
is_hf_local _ = false

abbrev pub is_aws_native : BillingMode → Bool
is_aws_native BillingMode.aws_native_reference = true
is_aws_native _ = false

-- `mode in {LEDGER_REQUIRED, AWS_NATIVE_REFERENCE}`
abbrev pub bills_usage : BillingMode → Bool
bills_usage BillingMode.disabled = false
bills_usage BillingMode.observability = false
bills_usage BillingMode.ledger_required = true
bills_usage BillingMode.aws_native_reference = true

rstrip_slash : Text → Text
rstrip_slash [] = []
rstrip_slash (c ∷ s) = if nat_beq c b'/' then rstrip_slash s else c ∷ s

-- `value.rstrip("/")`
unfoldable pub strip_trailing_slash : Text → Text
unfolding rstrip_slash
strip_trailing_slash url = reverse (rstrip_slash (reverse url))

-- The lower bounds that the fields declare.
unfoldable pub within_bounds : AppSettings → Bool
within_bounds s =
    leb 100 s.upstream_timeout_ms
    && leb 1 s.jwks_cache_ttl_seconds
    && leb 1 s.quota_window_seconds
    && leb 1 s.redis_quota_concurrency_ttl_seconds
    && leb 1 s.billing_batch_max_records
    && leb 100 s.billing_flush_interval_ms
    && leb 1 s.billing_queue_max_records
    && leb 1 s.billing_lru_max_request_ids

unfoldable pub is_local : Text → Bool
is_local environment = contains local_environments (lower (strip environment))

unfoldable pub reject_mock_auth_outside_local : AppSettings → Result SettingsError AppSettings
unfolding is_local
reject_mock_auth_outside_local s =
    if is_mock s.auth_mode
      && not (is_local s.environment)
      && not s.unsafe_allow_mock_auth_outside_local
    then err mock_auth_outside_local
    else ok s

unfoldable pub require_tokenizer_assets_for_configured_mode :
    AppSettings → Result SettingsError AppSettings
require_tokenizer_assets_for_configured_mode s =
    if is_hf_local s.tokenizer_mode && not (is_some s.tokenizer_path)
    then err tokenizer_path_missing
    else ok s

-- The tests of `billing_ledger_path` and `audit_log_path` are left out as they never fire: both are
-- `Path` objects, which are always true.
unfoldable pub require_paths_for_file_backed_modes : AppSettings → Result SettingsError AppSettings
require_paths_for_file_backed_modes s =
    if is_aws_native s.billing_mode && not (is_given s.aws_billing_s3_bucket)
    then err s3_bucket_missing
    else ok s

-- `AppSettings.model_validate`, from fields of the declared types.
unfoldable pub model_validate : AppSettings → Result SettingsError AppSettings
model_validate raw = do
  guard (within_bounds raw) out_of_range
  a ←
      reject_mock_auth_outside_local
        (record raw { upstream_base_url = strip_trailing_slash raw.upstream_base_url })
  b ← require_tokenizer_assets_for_configured_mode a
  require_paths_for_file_backed_modes b
