-- ===== src/Gateway/Ready.antt =====
-- main.py: what `lifespan` makes of the settings, and the readiness endpoint.
use saa_s_governance_layer_r.Common.{
  ◌≡◌, refl, ℕ, inl, inr, Option, none, ℤ, is_some, if◌then◌else◌, Option-cases,
}
use saa_s_governance_layer_r.Settings.{AppSettings, SecurityPostureMode}
use saa_s_governance_layer_r.Registry.{TenantRegistry}
use saa_s_governance_layer_r.Auth.{JwtLibrary}
use saa_s_governance_layer_r.Policy.{Schema}
use saa_s_governance_layer_r.Quota.{QuotaEnforcer}
use saa_s_governance_layer_r.Posture.{evaluate_security_posture, enforce_security_posture}
use saa_s_governance_layer_r.Posture.Enforced.{IsSecure, enforce_security_posture_iff}
use saa_s_governance_layer_r.Gateway.{Application, Request, UpstreamAnswer, replied}
use saa_s_governance_layer_r.Gateway.Admission.{authorize}
use saa_s_governance_layer_r.Gateway.Handler.{State, emit_and_respond, handle_llm_request}

-- `lifespan`, as far as the handler reads it; `registry` is what `TenantRegistry.load` gave.
unfoldable pub lifespan : AppSettings → Option TenantRegistry → Application
lifespan settings registry = record {
  settings = settings;
  registry = registry;
  posture_block = enforce_security_posture settings (evaluate_security_posture settings);
}

-- The status of `readyz`.
unfoldable pub readyz : Application → ℕ
readyz app = if is_some app.posture_block then 503 else if is_some app.registry then 200 else 503

module _ (schema : Schema) (jwt : JwtLibrary) (enforcer : QuotaEnforcer)
    (estimate_input_tokens : schema.Body → Option ℤ) where
  open schema use {Body}

  abbrev S : Type 0
  S = State schema jwt enforcer estimate_input_tokens

  -- Under the enforcing mode, a gateway with settings that are not secure is not ready, and it
  -- answers every request with 503 without asking the quota, calling the upstream or billing.
  pub lifespan-IsSecure :
      (settings : AppSettings) (registry : Option TenantRegistry) (s : S) (req : Request Body)
      (answer : UpstreamAnswer)
      → settings.security_posture_mode ≡ SecurityPostureMode.enforce
      → ¬ IsSecure settings
      → let app = lifespan settings registry in
        let r = handle_llm_request schema jwt enforcer estimate_input_tokens app s req answer in
        (readyz app ≡ 503)
        × (r.1 ≡ replied 503 none)
        × (r.0.quota ≡ s.quota)
        × (r.0.calls ≡ s.calls)
        × (r.0.ledger ≡ s.ledger)
  unfolding lifespan readyz handle_llm_request authorize emit_and_respond
  lifespan-IsSecure settings registry s req answer mode insecure =
      elim (Option-cases (enforce_security_posture settings (evaluate_security_posture settings))) [
        | inl clear ↦ absurd (insecure ((enforce_security_posture_iff settings mode).0 clear))
        | inr (block, e) ↦ (
          rw (e, readyz, lifespan) refl,
          rw (e, lifespan, handle_llm_request, authorize) refl,
          rw (e, lifespan, handle_llm_request, authorize) refl,
          rw (e, lifespan, handle_llm_request, authorize) refl,
          rw (e, lifespan, handle_llm_request, authorize) refl,
        )
      ]
