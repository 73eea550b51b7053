-- ===== src/Policy/Tests.antt =====
-- Policy decisions and parsed requests at the sample data.
use saa_s_governance_layer_r.Common.{
  ◌≡◌, refl, ◌↔◌, true, false, [], Option, none, some, Text, codes, text_beq, text_eq, lower, strip,
  count, split, ends_with, lookup, ok, err,
}
use saa_s_governance_layer_r.Reason.{Reason}
use saa_s_governance_layer_r.Settings.{AuthMode, AdapterGovernanceMode}
use saa_s_governance_layer_r.Examples.{tenant_a, registry, model_name, adapter_name}
use saa_s_governance_layer_r.Registry.{AdapterArtifactPolicy, resolve_by_host, normalize_host}
use saa_s_governance_layer_r.Auth.{AuthenticatedPrincipal}
use saa_s_governance_layer_r.Governance.{
  evaluate_adapter_governance, IsGoverned, evaluate_adapter_governance_iff,
}
use saa_s_governance_layer_r.Policy.{
  RequestAttributes, Schema, ParsedGatewayRequest, completion, normalize_non_empty_string,
  endpoint_from_path, validate_fields, parse_gateway_request_body, request_attributes_from_body,
  extract_adapter, evaluate_policy,
}
use saa_s_governance_layer_r.Policy.Decide.{
  IsPermitted, IsStatusMeaningful, allowing, evaluate_policy_sound, evaluate_policy_complete,
  evaluate_policy-status,
}

deciding : Unit {0}
unfolding evaluate_policy resolve_by_host normalize_host lower strip count split lookup text_beq
deciding = tt

parsing : Unit {0}
unfolding parse_gateway_request_body request_attributes_from_body extract_adapter validate_fields
    endpoint_from_path normalize_non_empty_string lower strip ends_with text_beq
parsing = tt

abbrev user_of : Text → AuthenticatedPrincipal
user_of tenant_id = record {
  tenant_id = tenant_id;
  user_id = codes "ann";
  claims = [];
  auth_mode = AuthMode.oidc;
}

abbrev asking : Option Text → Option Text → RequestAttributes
asking model adapter = record { domain = some (codes "a.local"); model = model; adapter = adapter }

abbrev good : RequestAttributes
good = asking (some model_name) (some adapter_name)

abbrev ann : AuthenticatedPrincipal
ann = user_of (codes "tenant-a")

good_allowed : (evaluate_policy (some registry) good (some ann) none).allowed ≡ true
unfolding deciding
good_allowed = refl

refusals :
    ((evaluate_policy (some registry) good (some (user_of (codes "tenant-b"))) none).reason
      ≡ Reason.tenant_claim_mismatch)
    × ((evaluate_policy (some registry) (asking (some (codes "gpt")) none) (some ann) none).reason
        ≡ Reason.unknown_model)
    × ((evaluate_policy
          (some registry)
          (asking (some model_name) (some (codes "b-lora")))
          (some ann)
          none).reason
        ≡ Reason.unknown_adapter)
    × ((evaluate_policy (some registry) good none (some Reason.invalid_token)).status_code ≡ 401)
unfolding deciding
refusals = (refl, refl, refl, refl)

evaluate_policy_sound_example :
    (w : IsPermitted (some registry) good (some ann)) × (evaluate_policy
        (some registry)
        good
        (some ann)
        none
      ≡ allowing w.tenant w.user good)
evaluate_policy_sound_example =
    evaluate_policy_sound (some registry) good (some ann) none good_allowed

good-IsPermitted : IsPermitted (some registry) good (some ann)
good-IsPermitted = (evaluate_policy_sound (some registry) good (some ann) none good_allowed).0

evaluate_policy_complete_example :
    (evaluate_policy (some registry) good (some ann) none).allowed ≡ true
evaluate_policy_complete_example =
    evaluate_policy_complete (some registry) good (some ann) none good-IsPermitted

evaluate_policy-status_example :
    IsStatusMeaningful
      (some registry)
      good
      none
      (some Reason.invalid_token)
      (evaluate_policy (some registry) good none (some Reason.invalid_token))
evaluate_policy-status_example =
    evaluate_policy-status (some registry) good none (some Reason.invalid_token)

-- A schema whose bodies are the two fields.
abbrev two_fields : Schema
two_fields = record {
  Body = Text × Option Text;
  has_key = λ key body. text_beq key (codes "messages");
  fields = λ endpoint body. some body;
  model_dump = λ endpoint body model adapter. (model, adapter);
  stream = λ body. false;
}

abbrev parsed : ParsedGatewayRequest (Text × Option Text)
parsed = record {
  attributes = record {
    domain = some (codes "a.local");
    model = some model_name;
    adapter = some adapter_name;
  };
  body = (model_name, some adapter_name);
  endpoint = completion;
}

abbrev raw_body : Text × Option Text
raw_body = (codes " llama ", some (codes "a-lora "))

parse_good :
    parse_gateway_request_body two_fields
      (some (codes "A.local"))
      raw_body
      (codes "/v1/completions")
    ≡ ok parsed
unfolding parsing
parse_good = refl

parse_tests :
    (extract_adapter two_fields raw_body ≡ ok (some adapter_name))
    × (request_attributes_from_body two_fields none (codes " ", none)
        ≡ err Reason.invalid_request_schema)
unfolding parsing
parse_tests = (refl, refl)

evaluate_adapter_governance_iff_example :
    ((evaluate_adapter_governance tenant_a model_name
        (some adapter_name)
        AdapterGovernanceMode.catalog_enforced).allowed
      ≡ true)
    ↔ ((artifact : AdapterArtifactPolicy) × (lookup adapter_name tenant_a.adapter_artifacts
          ≡ some artifact)
        × IsGoverned artifact model_name)
evaluate_adapter_governance_iff_example =
    evaluate_adapter_governance_iff tenant_a model_name adapter_name
