-- ===== src/Gateway.antt =====
-- main.py: the request handler of `create_app`, from the request to the reply. An `await` is a
-- single step here; what the upstream answers is an argument of the step. The token estimate is a
-- parameter, as are the schema and the token library; events keep the fields that decide
-- something, without estimates and latencies.
pub mod Admission
pub mod Handler
mod Frame
pub mod Calls
pub mod Slots
pub mod Ready
pub mod Events
pub mod Billed
mod Tests
use saa_s_governance_layer_r.Common.{
  ℕ, Bool, true, false, not, ◌&&◌, List, [], ◌∷◌, ◌++◌, Option, none, some, Text, codes, lower,
  text_eq, ◌==◌, if◌then◌else◌, Dict, is_some, Result, ok, err, ◌>>=◌, ◌>>◌, guard, ltb, ℤ,
}
use saa_s_governance_layer_r.Reason.{Reason}
use saa_s_governance_layer_r.Settings.{AppSettings, bills_usage}
use saa_s_governance_layer_r.Registry.{TenantConfig, TenantRegistry, resolve_by_host}
use saa_s_governance_layer_r.Auth.{AuthenticatedPrincipal, JwtLibrary, validate_request_auth}
use saa_s_governance_layer_r.Policy.{
  RequestAttributes, ParsedGatewayRequest, PolicyDecision, Schema, parse_gateway_request_body,
  evaluate_policy,
}
use saa_s_governance_layer_r.Governance.{AdapterGovernanceDecision, evaluate_adapter_governance}
use saa_s_governance_layer_r.Headers.{build_outbound_headers}
use saa_s_governance_layer_r.Quota.{QuotaDecision, QuotaEnforcer, effective_request_id}
use saa_s_governance_layer_r.Billing.{
  UsageObject, UsageTokens, BillingLedger, BillingLedgerEntry, AppendResult, queue_full, append,
  require_usage_tokens,
}
use saa_s_governance_layer_r.Posture.{FindingCode}

-- What `app.state` holds from the start on.
pub record Application : Type 0 where
  pub settings : AppSettings
  pub registry : Option TenantRegistry
  pub posture_block : Option (List FindingCode)

-- A request; `body` is `none` when it is no JSON object. `uuid` and `now` are what `uuid4` and the
-- clock answer while the request is handled.
pub record Request (Body : Type 0) : Type 0 where
  pub path : Text
  pub headers : List (Text × Text)
  pub body : Option Body
  pub uuid : Text
  pub now : ℕ
  pub created_at : Text

-- `request.headers.get(name)`: the first header of that name, whatever its case.
unfoldable pub header_of : Text → List (Text × Text) → Option Text
header_of name [] = none
header_of name ((key, value) ∷ headers) =
    if lower key == name then some value else header_of name headers

pub record UpstreamCall (Body : Type 0) : Type 0 where
  pub path : Text
  pub body : Body
  pub headers : Dict Text Text
  pub streamed : Bool

-- An upstream's reply: its status and the `usage` object of its body.
pub record UpstreamResponse : Type 0 where
  pub status_code : ℕ
  pub usage : Option UsageObject

-- What the upstream does with a call: a reply, an open stream with its status, or an exception.
pub data UpstreamAnswer : Type 0 where
  answered : UpstreamResponse → UpstreamAnswer
  opened : ℕ → UpstreamAnswer
  failed : UpstreamAnswer

pub record MeteringEvent : Type 0 where
  pub request_id : Text
  pub tenant_id : Option Text
  pub user_id : Option Text
  pub domain : Option Text
  pub model : Option Text
  pub adapter : Option Text
  pub allowed : Bool
  pub status_code : ℕ
  pub reason : Reason
  pub upstream_status_code : Option ℕ

pub record GatewayState (Body Quota : Type 0) : Type 0 where
  pub quota : Option Quota
  pub ledger : BillingLedger
  pub calls : List (UpstreamCall Body)
  pub events : List MeteringEvent

-- A stream that the client is reading.
pub record Stream : Type 0 where
  pub request_id : Text
  pub tenant_id : Text
  pub user_id : Text
  pub decision : PolicyDecision
  pub domain : Option Text
  pub status_code : ℕ
  pub quota_recorded : Bool

-- The end of the handler: a reply with its `Retry-After`, a stream, or an exception that leaves it.
pub data Reply : Type 0 where
  replied : (status_code : ℕ) → (retry_after : Option ℕ) → Reply
  streaming : Stream → Reply
  raised : Reply

-- A request that may go to the quota, with the fields that the handler asserts.
pub record Admitted (Body : Type 0) : Type 0 where
  pub tenant : TenantConfig
  pub tenant_id : Text
  pub user_id : Text
  pub model : Text
  pub decision : PolicyDecision
  pub body : Body

-- Why a request goes no further: a denial, or a failed `assert`.
pub data Rejection : Type 0 where
  denied : PolicyDecision → Rejection
  assertion_error : Rejection

-- `PolicyDecision(False, status_code, reason)`
abbrev pub plain_denial : ℕ → Reason → PolicyDecision
plain_denial status_code reason = record {
  allowed = false;
  status_code = status_code;
  reason = reason;
  tenant = none;
  tenant_id = none;
  user_id = none;
  model = none;
  adapter = none;
}

-- The same with the tenant, user, model and adapter of an earlier decision.
abbrev pub denial : PolicyDecision → ℕ → Reason → PolicyDecision
denial decision status_code reason = record decision {
  allowed = false;
  status_code = status_code;
  reason = reason;
}

abbrev pub or_assert {ℓ} : {A : Type ℓ} → Option A → Result Rejection A
or_assert none = err assertion_error
or_assert (some a) = ok a

-- The results of another component's call, with its error as a denial.
abbrev pub or_denied {ℓ} : {A : Type ℓ} → ℕ → Result Reason A → Result Rejection A
or_denied status_code (ok a) = ok a
or_denied status_code (err reason) = err (denied (plain_denial status_code reason))

abbrev pub or_invalid_json {ℓ} : {A : Type ℓ} → Option A → Result Rejection A
or_invalid_json none = err (denied (plain_denial 400 Reason.invalid_json))
or_invalid_json (some a) = ok a

-- `principal` and `auth_error_reason` after the `try`.
abbrev pub principal_of : Result Reason AuthenticatedPrincipal → Option AuthenticatedPrincipal
principal_of (ok p) = some p
principal_of (err reason) = none

abbrev pub auth_error_of : Result Reason AuthenticatedPrincipal → Option Reason
auth_error_of (ok p) = none
auth_error_of (err reason) = some reason

abbrev pub resolve : Option TenantRegistry → Option Text → Option TenantConfig
resolve none domain = none
resolve (some registry) domain = resolve_by_host registry domain

abbrev pub event_of : Text → Option Text → PolicyDecision → Option ℕ → MeteringEvent
event_of request_id domain decision upstream_status_code = record {
  request_id = request_id;
  tenant_id = decision.tenant_id;
  user_id = decision.user_id;
  domain = domain;
  model = decision.model;
  adapter = decision.adapter;
  allowed = decision.allowed;
  status_code = decision.status_code;
  reason = decision.reason;
  upstream_status_code = upstream_status_code;
}
