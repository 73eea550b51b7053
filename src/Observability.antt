-- ===== src/Observability.antt =====
-- What the gateway reports of a request: the metering event of metering.py, the audit sink of audit.py,
-- and `_emit_observability` of main.py, which also feeds the counters of slo_metrics.py. A log is the
-- list of its records, in place of their JSON lines.
pub mod Agree
mod Tests
use saa_s_governance_layer_r.Common.{
  ℕ, Bool, true, false, List, [], ◌∷◌, ◌++◌, Option, none, some, Text, codes, ℤ, Result, ok, err,
  ◌>>◌, guard, is_some, not, ◌&&◌, if◌then◌else◌,
}
use saa_s_governance_layer_r.Settings.{
  AppSettings, AuthMode, QuotaMode, BillingMode, AuditSinkMode, AdapterGovernanceMode,
}
use saa_s_governance_layer_r.Metrics.{SloMetrics, Request, record_request}

pub record MeteringEvent : Type 0 where
  pub request_id : Text
  pub tenant_id : Option Text
  pub user_id : Option Text
  pub domain : Option Text
  pub model : Option Text
  pub adapter : Option Text
  pub decision : Text
  pub status_code : ℕ
  pub reason : Text
  pub latency_us : ℕ
  pub estimated_input_tokens : Option ℤ
  pub estimated_input_token_source : Option Text
  pub estimated_input_tokens_billing_grade : Bool
  pub estimated_output_tokens : Option ℤ
  pub estimated_output_token_source : Option Text
  pub estimated_output_tokens_billing_grade : Bool
  pub upstream_status_code : Option ℕ

pub record AuditEvent : Type 0 where
  pub request_id : Text
  pub tenant_id : Option Text
  pub user_id : Option Text
  pub domain : Option Text
  pub model : Option Text
  pub adapter : Option Text
  pub decision : Text
  pub status_code : ℕ
  pub reason : Text
  pub auth_mode : Text
  pub quota_mode : Text
  pub adapter_governance_mode : Text
  pub billing_mode : Text
  pub upstream_status_code : Option ℕ
  pub security_boundary_claim : Text

-- The `value` of the modes.
abbrev auth_mode_value : AuthMode → Text
auth_mode_value AuthMode.mock = codes "mock"
auth_mode_value AuthMode.oidc = codes "oidc"

abbrev quota_mode_value : QuotaMode → Text
quota_mode_value QuotaMode.disabled = codes "disabled"
quota_mode_value QuotaMode.in_memory = codes "in_memory"
quota_mode_value QuotaMode.redis = codes "redis"

abbrev billing_mode_value : BillingMode → Text
billing_mode_value BillingMode.disabled = codes "disabled"
billing_mode_value BillingMode.observability = codes "observability"
billing_mode_value BillingMode.ledger_required = codes "ledger_required"
billing_mode_value BillingMode.aws_native_reference = codes "aws_native_reference"

abbrev adapter_governance_mode_value : AdapterGovernanceMode → Text
adapter_governance_mode_value AdapterGovernanceMode.allowlist_only = codes "allowlist_only"
adapter_governance_mode_value AdapterGovernanceMode.catalog_enforced = codes "catalog_enforced"

-- `audit_event_from_metering`, called with the modes of the settings
unfoldable pub audit_event_from_metering : AppSettings → MeteringEvent → AuditEvent
audit_event_from_metering settings event = record {
  request_id = event.request_id;
  tenant_id = event.tenant_id;
  user_id = event.user_id;
  domain = event.domain;
  model = event.model;
  adapter = event.adapter;
  decision = event.decision;
  status_code = event.status_code;
  reason = event.reason;
  auth_mode = auth_mode_value settings.auth_mode;
  quota_mode = quota_mode_value settings.quota_mode;
  adapter_governance_mode = adapter_governance_mode_value settings.adapter_governance_mode;
  billing_mode = billing_mode_value settings.billing_mode;
  upstream_status_code = event.upstream_status_code;
  security_boundary_claim = codes "gateway_policy_not_downstream_security_boundary";
}

-- The sink, with what it has written to the standard output and to its file.
pub record AuditSink : Type 0 where
  pub mode : AuditSinkMode
  pub stdout : List AuditEvent
  pub lines : List AuditEvent

pub data AuditError : Type 0 where
  jsonl_path_required : AuditError

abbrev is_jsonl : AuditSinkMode → Bool
is_jsonl AuditSinkMode.jsonl = true
is_jsonl _ = false

-- `AuditSink.__init__`
unfoldable pub open_sink : AuditSinkMode → (jsonl_path : Option Text) → Result AuditError AuditSink
open_sink mode jsonl_path =
    guard (not (is_jsonl mode && not (is_some jsonl_path))) jsonl_path_required
    >> ok (record { mode = mode; stdout = []; lines = [] })

-- `AuditSink.emit`; `none` is the exception of a file that is not `writable`. The standard output is
-- written by `logger.info`, which drops the record unless the logger lets INFO through.
unfoldable pub emit : (info_enabled writable : Bool) → AuditSink → AuditEvent → Option AuditSink
emit info_enabled writable sink event = elim sink.mode [
  | AuditSinkMode.disabled ↦ some sink
  | AuditSinkMode.stdout ↦
      some (if info_enabled then record sink { stdout = sink.stdout ++ event ∷ [] } else sink)
  | AuditSinkMode.jsonl ↦
      if writable then some (record sink { lines = sink.lines ++ event ∷ [] }) else none
]

-- The log of the metering events, the audit sink and the counters. `info_enabled` says whether the
-- loggers let INFO through, which `configure_logging` sets from APP_LOG_LEVEL.
pub record Observed : Type 0 where
  pub info_enabled : Bool
  pub metering_log : List MeteringEvent
  pub audit_sink : AuditSink
  pub slo_metrics : SloMetrics

-- What the counters are given of an event.
abbrev pub request_of : MeteringEvent → Request
request_of event = record {
  tenant_id = event.tenant_id;
  decision = event.decision;
  reason = event.reason;
  latency_us = event.latency_us;
  upstream_status_code = event.upstream_status_code;
}

-- An event to be reported, and whether the audit file can be written then.
pub record Report : Type 0 where
  pub event : MeteringEvent
  pub writable : Bool

-- `emit_metering_event`
abbrev pub emit_metering_event : Observed → MeteringEvent → Observed
emit_metering_event s event = record s {
  metering_log = if s.info_enabled then s.metering_log ++ event ∷ [] else s.metering_log;
}

-- `_emit_observability`; an exception of the sink comes before the counters.
unfoldable pub emit_observability : AppSettings → Observed → Report → Observed
unfolding audit_event_from_metering emit record_request
emit_observability settings s report =
    let audit = audit_event_from_metering settings report.event in
    elim (emit s.info_enabled report.writable s.audit_sink audit) [
      | none ↦ emit_metering_event s report.event
      | some sink ↦ record (emit_metering_event s report.event) {
        audit_sink = sink;
        slo_metrics = record_request s.slo_metrics (request_of report.event);
      }
    ]
