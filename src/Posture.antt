-- ===== src/Posture.antt =====
-- security_posture.py: the findings on the settings, and what they block in the enforcing mode.
-- Logging the findings is left out. A message is fixed by its code and left out too.
pub mod Enforced
mod Tests
use saa_s_governance_layer_r.Common.{
  Bool, true, false, not, ◌&&◌, ◌||◌, List, [], ◌∷◌, ◌++◌, Option, none, some, Text, codes, lower,
  strip, contains, text_eq, contains_text, any, filter, if◌then◌else◌, is_empty,
}
use saa_s_governance_layer_r.Settings.{
  AppSettings, AuthMode, QuotaMode, BillingMode, AuditSinkMode, AdapterGovernanceMode,
  SecurityPostureMode, is_mock,
}

pub data Severity : Type 0 where
  critical high medium : Severity

pub data FindingCode : Type 0 where
  mock_auth_enabled mock_upstream_enabled quota_disabled : FindingCode
  quota_in_memory_not_distributed billing_disabled audit_disabled : FindingCode
  adapter_catalog_not_enforced upstream_not_private : FindingCode

pub record SecurityFinding : Type 0 where
  pub severity : Severity
  pub code : FindingCode

-- The markers that `_looks_private_upstream` searches for.
abbrev pub private_markers : List Text
private_markers =
    codes ".svc"
    ∷ codes ".cluster.local"
    ∷ codes "localhost"
    ∷ codes "127.0.0.1"
    ∷ codes "10."
    ∷ codes "192.168."
    ∷ codes "172.16."
    ∷ codes "172.17."
    ∷ codes "172.18."
    ∷ codes "172.19."
    ∷ codes "172.20."
    ∷ codes "172.21."
    ∷ codes "172.22."
    ∷ codes "172.23."
    ∷ codes "172.24."
    ∷ codes "172.25."
    ∷ codes "172.26."
    ∷ codes "172.27."
    ∷ codes "172.28."
    ∷ codes "172.29."
    ∷ codes "172.30."
    ∷ codes "172.31."
    ∷ []

unfoldable pub looks_private_upstream : Text → Bool
looks_private_upstream url = any (λ marker. contains_text marker (lower url)) private_markers

-- `environment in {"prod", "production", "stage", "staging"}`
unfoldable pub is_production_like : Text → Bool
is_production_like environment =
    contains (codes "prod" ∷ codes "production" ∷ codes "stage" ∷ codes "staging" ∷ [])
      (lower (strip environment))

abbrev is_quota_disabled : QuotaMode → Bool
is_quota_disabled QuotaMode.disabled = true
is_quota_disabled _ = false

abbrev is_quota_in_memory : QuotaMode → Bool
is_quota_in_memory QuotaMode.in_memory = true
is_quota_in_memory _ = false

abbrev is_billing_disabled : BillingMode → Bool
is_billing_disabled BillingMode.disabled = true
is_billing_disabled _ = false

abbrev is_audit_disabled : AuditSinkMode → Bool
is_audit_disabled AuditSinkMode.disabled = true
is_audit_disabled _ = false

abbrev is_catalog_enforced : AdapterGovernanceMode → Bool
is_catalog_enforced AdapterGovernanceMode.catalog_enforced = true
is_catalog_enforced AdapterGovernanceMode.allowlist_only = false

abbrev is_enforcing : SecurityPostureMode → Bool
is_enforcing SecurityPostureMode.enforce = true
is_enforcing SecurityPostureMode.audit = false

-- One `if condition: findings.append(SecurityFinding(severity, code, ...))`
pub record Check : Type 0 where
  pub condition : Bool
  pub severity : Severity
  pub code : FindingCode

abbrev check : Bool → Severity → FindingCode → Check
check condition severity code = record { condition = condition; severity = severity; code = code }

unfoldable pub posture_checks : AppSettings → List Check
posture_checks s =
    let production_like = is_production_like s.environment in
    check (is_mock s.auth_mode) critical mock_auth_enabled
    ∷ check (s.mock_upstream && production_like) critical mock_upstream_enabled
    ∷ check (is_quota_disabled s.quota_mode && production_like) high quota_disabled
    ∷ check (is_quota_in_memory s.quota_mode && production_like) high
        quota_in_memory_not_distributed
    ∷ check (is_billing_disabled s.billing_mode && production_like) high billing_disabled
    ∷ check (is_audit_disabled s.audit_sink && production_like) high audit_disabled
    ∷ check (not (is_catalog_enforced s.adapter_governance_mode) && production_like) medium
        adapter_catalog_not_enforced
    ∷ check (s.require_private_upstream && not (looks_private_upstream s.upstream_base_url))
        critical upstream_not_private
    ∷ []

unfoldable pub findings_of : List Check → List SecurityFinding
findings_of [] = []
findings_of (c ∷ checks) =
    if c.condition
    then record { severity = c.severity; code = c.code } ∷ findings_of checks
    else findings_of checks

unfoldable pub evaluate_security_posture : AppSettings → List SecurityFinding
unfolding posture_checks findings_of
evaluate_security_posture s = findings_of (posture_checks s)

-- `severity in {"critical", "high"}`
abbrev pub is_blocking : Severity → Bool
is_blocking Severity.critical = true
is_blocking Severity.high = true
is_blocking Severity.medium = false

abbrev finding_codes : List SecurityFinding → List FindingCode
finding_codes [] = []
finding_codes (f ∷ findings) = f.code ∷ finding_codes findings

-- The codes that the source joins with commas; `none` for no block.
unfoldable pub enforce_security_posture :
    AppSettings → List SecurityFinding → Option (List FindingCode)
enforce_security_posture s findings =
    if not (is_enforcing s.security_posture_mode)
    then none
    else (let blocking = filter (λ f. is_blocking f.severity) findings in
        if is_empty blocking then none else some (finding_codes blocking))
