-- ===== src/Posture/Enforced.antt =====
-- What the enforcing posture guarantees of the settings of a gateway that serves.
use saa_s_governance_layer_r.Common.{
  ◌≡◌, ◌≢◌, ◌↔◌, true, false, ◌&&◌, List, [], ◌∷◌, none, All, filter, is_empty, arith, Bool-cases,
  inl, inr,
}
use saa_s_governance_layer_r.Settings.{
  AppSettings, AuthMode, QuotaMode, BillingMode, AuditSinkMode, SecurityPostureMode,
}
use saa_s_governance_layer_r.Posture.{
  SecurityFinding, Check, posture_checks, findings_of, is_blocking, looks_private_upstream,
  is_production_like, evaluate_security_posture, enforce_security_posture,
}

-- What production traffic needs.
pub record IsProductionReady (s : AppSettings) : Type 0 where
  pub real : s.mock_upstream ≡ false
  pub distributed : s.quota_mode ≡ QuotaMode.redis
  pub billed : s.billing_mode ≢ BillingMode.disabled
  pub audited : s.audit_sink ≢ AuditSinkMode.disabled

-- Settings with no critical or high finding.
pub record IsSecure (s : AppSettings) : Type 0 where
  pub authenticated : s.auth_mode ≡ AuthMode.oidc
  pub production : is_production_like s.environment ≡ true → IsProductionReady s
  pub private :
      s.require_private_upstream ≡ true → looks_private_upstream s.upstream_base_url ≡ true

-- No finding of the list blocks.
abbrev IsClear : List SecurityFinding → Type 0
IsClear findings = is_empty (filter (λ f. is_blocking f.severity) findings) ≡ true

-- A check that finds nothing, or nothing that blocks.
abbrev IsPassed : Check → Type 0
IsPassed c = (c.condition && is_blocking c.severity) ≡ false

findings_of-IsClear : (checks : List Check) → IsClear (findings_of checks) ↔ All IsPassed checks
unfolding findings_of
findings_of-IsClear [] = ground arith
findings_of-IsClear (c ∷ checks) = ground (arith, findings_of-IsClear checks)

posture_checks-IsSecure : (s : AppSettings) → All IsPassed (posture_checks s) → IsSecure s
unfolding posture_checks
posture_checks-IsSecure s h = record {
  authenticated = ground arith;
  production = (λ p. record {
    real = ground arith;
    distributed = ground arith;
    billed = (λ e. ground arith);
    audited = (λ e. ground arith);
  });
  private = (λ p. ground arith);
}

IsSecure-posture_checks : (s : AppSettings) → IsSecure s → All IsPassed (posture_checks s)
unfolding posture_checks
IsSecure-posture_checks s w = elim (Bool-cases (is_production_like s.environment)) [
  | inl production ↦
      let ready = w.production production in
      ground (
        arith, w.authenticated, w.private, ready.real, ready.distributed, ready.billed,
        ready.audited,
      )
  | inr other ↦ ground (arith, w.authenticated, w.private)
]

enforce_security_posture-none :
    (s : AppSettings) (findings : List SecurityFinding)
    → s.security_posture_mode ≡ SecurityPostureMode.enforce
    → (enforce_security_posture s findings ≡ none) ↔ IsClear findings
unfolding enforce_security_posture
enforce_security_posture-none s findings mode = ground arith

-- With the enforcing mode, the gateway is not blocked exactly if authentication is by OIDC, an
-- upstream that is required to be private looks private, and in a production-like environment the
-- upstream is real, quotas are kept in Redis, and billing and auditing are on.
pub enforce_security_posture_iff :
    (s : AppSettings)
    → s.security_posture_mode ≡ SecurityPostureMode.enforce
    → (enforce_security_posture s (evaluate_security_posture s) ≡ none) ↔ IsSecure s
unfolding evaluate_security_posture
enforce_security_posture_iff s mode =
    let clear = findings_of-IsClear (posture_checks s) in
    let answer = enforce_security_posture-none s (evaluate_security_posture s) mode in
    (
      (λ h. posture_checks-IsSecure s (clear.0 (answer.0 h))),
      (λ w. answer.1 (clear.1 (IsSecure-posture_checks s w))),
    )
