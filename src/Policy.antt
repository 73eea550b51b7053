-- ===== src/Policy.antt =====
-- policy_engine.py: the request attributes and the policy decision. Checking a body against the
-- pydantic schema is pydantic's part, the parameter `Schema`; the source's own field validator and
-- all that follows is modelled.
pub mod Decide
pub mod Parse
mod Tests
use saa_s_governance_layer_r.Common.{
  ℕ, Bool, true, false, not, ◌&&◌, ◌||◌, List, [], ◌∷◌, Option, none, some, Text, codes, lower,
  strip, contains, text_eq, ◌==◌, if◌then◌else◌, Dict, lookup, is_empty, ends_with, Result, ok, err,
  ◌>>=◌, get_or,
}
use saa_s_governance_layer_r.Reason.{Reason}
use saa_s_governance_layer_r.Registry.{TenantConfig, TenantRegistry, resolve_by_host}
use saa_s_governance_layer_r.Auth.{AuthenticatedPrincipal}

pub record RequestAttributes : Type 0 where
  pub domain : Option Text
  pub model : Option Text
  pub adapter : Option Text

pub data Endpoint : Type 0 where
  chat completion : Endpoint

pub record ParsedGatewayRequest (Body : Type 0) : Type 0 where
  pub attributes : RequestAttributes
  pub body : Body
  pub endpoint : Endpoint

pub record PolicyDecision : Type 0 where
  pub allowed : Bool
  pub status_code : ℕ
  pub reason : Reason
  pub tenant : Option TenantConfig
  pub tenant_id : Option Text
  pub user_id : Option Text
  pub model : Option Text
  pub adapter : Option Text

-- `normalize_non_empty_strings` on a text; `none` is its `ValueError`.
unfoldable pub normalize_non_empty_string : Text → Option Text
normalize_non_empty_string value =
    let normalized = strip value in if is_empty normalized then none else some normalized

-- The same on a field that may be missing.
abbrev pub normalize_optional : Option Text → Option (Option Text)
normalize_optional none = some none
normalize_optional (some value) = elim (normalize_non_empty_string value) [
  | none ↦ none
  | some v ↦ some (some v)
]

-- Pydantic over a request body: the keys that the body has; the `model` and `lora_adapter` texts of
-- a body that fits the declared types, before the field validators; and the dump of the validated
-- request with those fields in their normal form.
pub record Schema : Type 1 where
  pub Body : Type 0
  pub has_key : Text → Body → Bool
  pub fields : Endpoint → Body → Option (Text × Option Text)
  pub model_dump : Endpoint → Body → Text → Option Text → Body
  pub stream : Body → Bool

abbrev chat_path : Text → Bool
chat_path path =
    ends_with path (codes "/v1/chat/completions") || ends_with path (codes "chat/completions")

abbrev completion_path : Text → Bool
completion_path path =
    ends_with path (codes "/v1/completions") || ends_with path (codes "completions")

module _ (schema : Schema) where
  open schema use {Body, has_key, fields, model_dump}

  unfoldable pub endpoint_from_path : Text → Body → Result Reason Endpoint
  endpoint_from_path upstream_path request_body =
      if chat_path upstream_path
      then ok chat
      else if completion_path upstream_path
      then ok completion
      else if has_key (codes "messages") request_body
      then ok chat
      else if has_key (codes "prompt") request_body
      then ok completion
      else err Reason.invalid_request_schema

  -- `ChatCompletionGatewayRequest.model_validate` or its completion twin: the two checked fields.
  unfoldable pub validate_fields : Endpoint → Body → Result Reason (Text × Option Text)
  validate_fields endpoint request_body = elim (fields endpoint request_body) [
    | none ↦ err Reason.invalid_request_schema
    | some (model, lora_adapter) ↦ elim (normalize_non_empty_string model) [
      | none ↦ err Reason.invalid_request_schema
      | some m ↦ elim (normalize_optional lora_adapter) [
        | none ↦ err Reason.invalid_request_schema
        | some a ↦ ok (m, a)
      ]
    ]
  ]

  abbrev lower_domain : Option Text → Option Text
  lower_domain none = none
  lower_domain (some d) = if is_empty d then none else some (lower d)

  unfoldable pub parse_gateway_request_body :
      Option Text → Body → Text → Result Reason (ParsedGatewayRequest Body)
  parse_gateway_request_body domain request_body upstream_path = do
    endpoint ← endpoint_from_path upstream_path request_body
    (model, adapter) ← validate_fields endpoint request_body
    ok (record {
      attributes = record { domain = lower_domain domain; model = some model; adapter = adapter };
      body = model_dump endpoint request_body model adapter;
      endpoint = endpoint;
    })

  unfoldable pub request_attributes_from_body : Option Text → Body → Result Reason RequestAttributes
  request_attributes_from_body domain request_body = do
    parsed ← parse_gateway_request_body domain request_body (codes "auto")
    ok parsed.attributes

  unfoldable pub extract_adapter : Body → Result Reason (Option Text)
  extract_adapter request_body = do
    parsed ← parse_gateway_request_body none request_body (codes "auto")
    ok parsed.attributes.adapter

abbrev deny :
    ℕ
    → Reason
    → Option TenantConfig
    → Option Text
    → Option Text
    → Option Text
    → Option Text
    → PolicyDecision
deny status_code reason tenant tenant_id user_id model adapter = record {
  allowed = false;
  status_code = status_code;
  reason = reason;
  tenant = tenant;
  tenant_id = tenant_id;
  user_id = user_id;
  model = model;
  adapter = adapter;
}

-- `attributes.adapter and attributes.adapter not in allowed`
abbrev pub adapter_refused : List Text → Option Text → Bool
adapter_refused adapters none = false
adapter_refused adapters (some a) = not (is_empty a) && not (contains adapters a)

-- The tests of the model and its adapter, for a principal of the tenant.
unfoldable pub evaluate_model :
    TenantConfig → AuthenticatedPrincipal → RequestAttributes → PolicyDecision
evaluate_model tenant principal attributes = elim attributes.model [
  | none ↦
      deny 403 Reason.unknown_model (some tenant) (some tenant.tenant_id) (some principal.user_id)
        none attributes.adapter
  | some model ↦ elim (lookup model tenant.allowed_models) [
    | none ↦
        deny 403 Reason.unknown_model (some tenant) (some tenant.tenant_id) (some principal.user_id)
          (some model) attributes.adapter
    | some policy ↦
        if adapter_refused policy.allowed_lora_adapters attributes.adapter
        then deny 403 Reason.unknown_adapter (some tenant) (some tenant.tenant_id)
            (some principal.user_id) (some model) attributes.adapter
        else record {
          allowed = true;
          status_code = 200;
          reason = Reason.allowed;
          tenant = some tenant;
          tenant_id = some tenant.tenant_id;
          user_id = some principal.user_id;
          model = some model;
          adapter = attributes.adapter;
        }
  ]
]

unfoldable pub evaluate_policy :
    Option TenantRegistry
    → RequestAttributes
    → Option AuthenticatedPrincipal
    → Option Reason
    → PolicyDecision
unfolding evaluate_model
evaluate_policy registry attributes principal auth_error_reason = elim registry [
  | none ↦ deny 503 Reason.registry_unavailable none none none none none
  | some r ↦ elim (resolve_by_host r attributes.domain) [
    | none ↦ deny 403 Reason.unknown_tenant none none none attributes.model attributes.adapter
    | some tenant ↦ elim principal [
      | none ↦
          deny 401 (get_or auth_error_reason Reason.missing_token) (some tenant)
            (some tenant.tenant_id) none none none
      | some p ↦
          if not (p.tenant_id == tenant.tenant_id)
          then deny 403 Reason.tenant_claim_mismatch (some tenant) (some tenant.tenant_id)
              (some p.user_id) attributes.model attributes.adapter
          else evaluate_model tenant p attributes
    ]
  ]
]
