-- ===== src/Reason.antt =====
-- The reason strings of decisions and errors, each literal of the source a constructor of that name.
use saa_s_governance_layer_r.Common.{Text}

pub data Reason : Type 0 where
  registry_unavailable unknown_tenant missing_token tenant_claim_mismatch unknown_model : Reason
  unknown_adapter allowed : Reason
  invalid_token invalid_mock_header invalid_mock_token jwks_not_configured : Reason
  tenant_claim_missing user_claim_missing invalid_token_use required_scope_missing : Reason
  required_group_missing tenant_claim_invalid : Reason
  no_adapter_requested adapter_allowlist_only adapter_not_governed : Reason
  adapter_model_incompatible adapter_checksum_missing adapter_signature_missing : Reason
  adapter_governed : Reason
  -- `f"adapter_{artifact.status}"`
  adapter_status : Text → Reason
  concurrency_quota_exceeded tenant_concurrency_quota_exceeded request_quota_exceeded : Reason
  tenant_request_quota_exceeded input_token_quota_exceeded : Reason
  tenant_input_token_quota_exceeded quota_allowed quota_backend_unavailable : Reason
  security_posture_blocked invalid_json invalid_request_schema : Reason
  streaming_billing_not_supported billing_usage_missing billing_queue_full : Reason
  stream_allowed upstream_stream_error : Reason
