-- ===== src/Policy/Decide.antt =====
-- When the policy allows a request, and what a refusal says.
use saa_s_governance_layer_r.Common.{
  ◌≡◌, refl, ◌≢◌, ◌∙◌, ◌↔◌, ◌⊎◌, inl, inr, true, false, List, [], ◌∷◌, Option, some, none, Text,
  text_eq, ◌==◌, ==_iff, arith, lookup, contains, Option-cases, Bool-cases, get_or,
}
use saa_s_governance_layer_r.Reason.{Reason}
use saa_s_governance_layer_r.Registry.{TenantConfig, TenantRegistry, ModelPolicy, resolve_by_host}
use saa_s_governance_layer_r.Auth.{AuthenticatedPrincipal}
use saa_s_governance_layer_r.Policy.{
  RequestAttributes, PolicyDecision, adapter_refused, evaluate_model, evaluate_policy,
}

-- The model is one of the tenant's, and so is a named adapter for that model.
pub record IsModelPermitted (tenant : TenantConfig) (attributes : RequestAttributes) : Type 0 where
  pub model : Text
  pub policy : ModelPolicy
  pub asked : attributes.model ≡ some model
  pub listed : lookup model tenant.allowed_models ≡ some policy
  pub adapter :
      (a : Text)
      → attributes.adapter ≡ some a
      → a ≢ []
      → contains policy.allowed_lora_adapters a ≡ true

-- The Host header, the principal and the request fit one tenant's policy.
pub record IsPermitted (registry : Option TenantRegistry) (attributes : RequestAttributes)
    (principal : Option AuthenticatedPrincipal) : Type 0 where
  pub loaded : TenantRegistry
  pub tenant : TenantConfig
  pub user : AuthenticatedPrincipal
  pub registered : registry ≡ some loaded
  pub resolved : resolve_by_host loaded attributes.domain ≡ some tenant
  pub authenticated : principal ≡ some user
  pub own : user.tenant_id ≡ tenant.tenant_id
  pub permitted : IsModelPermitted tenant attributes

-- The decision that lets a request of this tenant and user through.
abbrev pub allowing : TenantConfig → AuthenticatedPrincipal → RequestAttributes → PolicyDecision
allowing tenant principal attributes = record {
  allowed = true;
  status_code = 200;
  reason = Reason.allowed;
  tenant = some tenant;
  tenant_id = some tenant.tenant_id;
  user_id = some principal.user_id;
  model = attributes.model;
  adapter = attributes.adapter;
}

adapter_refused-false :
    (adapters : List Text) (o : Option Text)
    → adapter_refused adapters o ≡ false
    → (a : Text) → o ≡ some a
    → a ≢ []
    → contains adapters a ≡ true
adapter_refused-false adapters none h a e given = cc
adapter_refused-false adapters (some []) h a e given = absurd (given (ground arith))
adapter_refused-false adapters (some (c ∷ b)) h a e given = ground arith

adapter_refused-of :
    (adapters : List Text) (o : Option Text)
    → ((a : Text) → o ≡ some a → a ≢ [] → contains adapters a ≡ true)
    → adapter_refused adapters o ≡ false
adapter_refused-of adapters none h = refl
adapter_refused-of adapters (some []) h = refl
adapter_refused-of adapters (some (c ∷ b)) h = rw (h (c ∷ b) refl (λ e. cc))

evaluate_model-allowed :
    (tenant : TenantConfig) (p : AuthenticatedPrincipal) (attributes : RequestAttributes)
    → (evaluate_model tenant p attributes).allowed ≡ true
    → IsModelPermitted tenant attributes
      × (evaluate_model tenant p attributes ≡ allowing tenant p attributes)
unfolding evaluate_model
evaluate_model-allowed tenant p attributes h = elim (Option-cases attributes.model) [
  | inl missing ↦ cc (rw (missing, evaluate_model) at h)
  | inr (model, asked) ↦ elim (Option-cases (lookup model tenant.allowed_models)) [
    | inl unlisted ↦ cc (rw (asked, unlisted, evaluate_model) at h)
    | inr (policy, listed) ↦
        let fits : adapter_refused policy.allowed_lora_adapters attributes.adapter ≡ false =
          ground arith in
        (
          record {
            model = model;
            policy = policy;
            asked = asked;
            listed = listed;
            adapter = adapter_refused-false policy.allowed_lora_adapters attributes.adapter fits;
          },
          ground arith,
        )
  ]
]

evaluate_model_complete :
    (tenant : TenantConfig) (p : AuthenticatedPrincipal) (attributes : RequestAttributes)
    → IsModelPermitted tenant attributes
    → (evaluate_model tenant p attributes).allowed ≡ true
unfolding evaluate_model
evaluate_model_complete tenant p attributes m = rw (
  m.asked,
  m.listed,
  adapter_refused-of m.policy.allowed_lora_adapters attributes.adapter m.adapter,
  evaluate_model,
)

-- The policy lets a request through only if the registry is loaded, the Host header resolves to a
-- tenant, the caller is authenticated for that same tenant, and the model and any named adapter are
-- on that tenant's lists; the decision then carries that tenant, user, model and adapter.
pub evaluate_policy_sound :
    (registry : Option TenantRegistry) (attributes : RequestAttributes)
    (principal : Option AuthenticatedPrincipal) (auth_error : Option Reason)
    → (evaluate_policy registry attributes principal auth_error).allowed ≡ true
    → (w : IsPermitted registry attributes principal) × (evaluate_policy registry attributes
          principal auth_error
        ≡ allowing w.tenant w.user attributes)
unfolding evaluate_policy
evaluate_policy_sound none attributes principal auth_error h = cc
evaluate_policy_sound (some r) attributes none auth_error h = ground arith
evaluate_policy_sound (some r) attributes (some p) auth_error h =
    elim (Option-cases (resolve_by_host r attributes.domain)) [
      | inl unknown ↦ cc (rw (unknown, evaluate_policy) at h)
      | inr (tenant, resolved) ↦
          let same : (p.tenant_id == tenant.tenant_id) ≡ true = ground arith in
          let at_model : evaluate_policy (some r) attributes (some p) auth_error
              ≡ evaluate_model tenant p attributes =
            rw (resolved, same, evaluate_policy) in
          let (permitted, whole) = evaluate_model-allowed tenant p attributes (rw at_model at h) in
          (
            record {
              loaded = r;
              tenant = tenant;
              user = p;
              registered = refl;
              resolved = resolved;
              authenticated = refl;
              own = (==_iff p.tenant_id tenant.tenant_id).0 same;
              permitted = permitted;
            },
            at_model ∙ whole,
          )
    ]

-- And it lets every such request through.
pub evaluate_policy_complete :
    (registry : Option TenantRegistry) (attributes : RequestAttributes)
    (principal : Option AuthenticatedPrincipal) (auth_error : Option Reason)
    → IsPermitted registry attributes principal
    → (evaluate_policy registry attributes principal auth_error).allowed ≡ true
unfolding evaluate_policy
evaluate_policy_complete registry attributes principal auth_error w =
    rw
      (
        w.registered,
        w.resolved,
        w.authenticated,
        (==_iff w.user.tenant_id w.tenant.tenant_id).1 w.own,
        evaluate_policy,
      )
      (evaluate_model_complete w.tenant w.user attributes w.permitted)

-- A principal of the tenant gets 200 or 403.
evaluate_model-status :
    (tenant : TenantConfig) (p : AuthenticatedPrincipal) (attributes : RequestAttributes)
    → let d = evaluate_model tenant p attributes in
      ((d.status_code ≡ 200) × (d.allowed ≡ true)) ⊎ ((d.status_code ≡ 403) × (d.allowed ≡ false))
unfolding evaluate_model
evaluate_model-status tenant p attributes = ground arith

with_principal-status :
    (r : TenantRegistry) (attributes : RequestAttributes) (p : AuthenticatedPrincipal)
    (auth_error : Option Reason)
    → let d = evaluate_policy (some r) attributes (some p) auth_error in
      ((d.status_code ≡ 200) × (d.allowed ≡ true)) ⊎ ((d.status_code ≡ 403) × (d.allowed ≡ false))
unfolding evaluate_policy
with_principal-status r attributes p auth_error =
    elim (Option-cases (resolve_by_host r attributes.domain)) [
      | inl unknown ↦ rw (unknown, evaluate_policy) (inr (refl, refl))
      | inr (t, resolved) ↦
          rw (resolved, evaluate_policy)
            (elim (Bool-cases (p.tenant_id == t.tenant_id)) [
              | inl same ↦ rw same (evaluate_model-status t p attributes)
              | inr other ↦ rw other (inr (refl, refl))
            ])
    ]

-- What each status of a decision says of the request.
pub record IsStatusMeaningful (registry : Option TenantRegistry) (attributes : RequestAttributes)
    (principal : Option AuthenticatedPrincipal) (auth_error : Option Reason) (d : PolicyDecision)
    : Type 0 where
  pub unavailable : (d.status_code ≡ 503) ↔ (registry ≡ none)
  pub unauthenticated : (d.status_code ≡ 401) ↔ (
      (r : TenantRegistry) × (t : TenantConfig) × (registry ≡ some r)
      × (resolve_by_host r attributes.domain ≡ some t)
      × (principal ≡ none))
  pub challenge : d.status_code ≡ 401 → d.reason ≡ get_or auth_error Reason.missing_token
  pub success : (d.status_code ≡ 200) ↔ (d.allowed ≡ true)
  pub refusal :
      (d.status_code ≡ 503) ⊎ (d.status_code ≡ 401) ⊎ (d.status_code ≡ 200) ⊎ (d.status_code ≡ 403)

-- The status of a decision names what went wrong: 503 exactly without a registry, 401 exactly when
-- the Host header resolves and nobody is authenticated (with the authentication error as the reason,
-- or `missing_token`), 200 exactly for an allowed request; the only other status is 403.
pub evaluate_policy-status :
    (registry : Option TenantRegistry) (attributes : RequestAttributes)
    (principal : Option AuthenticatedPrincipal) (auth_error : Option Reason)
    → IsStatusMeaningful registry attributes principal auth_error
        (evaluate_policy registry attributes principal auth_error)
unfolding evaluate_policy
evaluate_policy-status none attributes principal auth_error = record {
  unavailable = ground arith;
  unauthenticated = ((λ h. absurd (ground arith)), (λ (r, t, e, f, g). cc));
  challenge = ground arith;
  success = ground arith;
  refusal = inl refl;
}
evaluate_policy-status (some r) attributes none auth_error =
    elim (Option-cases (resolve_by_host r attributes.domain)) [
      | inl unknown ↦
          rw (unknown, evaluate_policy)
            (record {
              unavailable = ground arith;
              unauthenticated = ((λ h. absurd (ground arith)), (λ (q, t, e, f, g). ground arith));
              challenge = ground arith;
              success = ground arith;
              refusal = inr (inr (inr refl));
            })
      | inr (t, resolved) ↦
          rw (resolved, evaluate_policy)
            (record {
              unavailable = ground arith;
              unauthenticated = ((λ h. (r, t, refl, resolved, refl)), (λ e. refl));
              challenge = (λ h. refl);
              success = ground arith;
              refusal = inr (inl refl);
            })
    ]
evaluate_policy-status (some r) attributes (some p) auth_error =
    let outcome = with_principal-status r attributes p auth_error in
    record {
      unavailable = ((λ h. absurd (ground arith)), (λ e. cc));
      unauthenticated = ((λ h. absurd (ground arith)), (λ (q, t, e, f, g). cc));
      challenge = (λ h. absurd (ground arith));
      success = ((λ h. ground arith), (λ h. ground arith));
      refusal = elim outcome [
        | inl good ↦ inr (inr (inl good.0))
        | inr bad ↦ inr (inr (inr bad.0))
      ];
    }
