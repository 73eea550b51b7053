-- ===== src/Auth/Tests.antt =====
-- Tokens of a sample PyJWT, and the mock credentials.
use saa_s_governance_layer_r.Common.{
  ◌≡◌, ◌↔◌, refl, [], ◌∷◌, ◌++◌, Option, none, some, Text, codes, text_beq, text_eq, lower, strip,
  count, partition, split, split_spaces, starts_with, lookup, insert, ok, err,
}
use saa_s_governance_layer_r.Reason.{Reason}
use saa_s_governance_layer_r.Settings.{AuthMode}
use saa_s_governance_layer_r.Examples.{tenant_a, settings}
use saa_s_governance_layer_r.Auth.{
  str, Claims, AuthenticatedPrincipal, JwtLibrary, extract_bearer_token, parse_mock_header,
  parse_mock_token, validate_mock_auth, mock_principal, split_claim_values, claim_or,
  enforce_required_oidc_claims, decode_options, validate_oidc_auth, validate_request_auth,
}
use saa_s_governance_layer_r.Auth.Oidc.{IsVerified, validate_oidc_auth-IsVerified}
use saa_s_governance_layer_r.Auth.Mock.{mock_token, validate_mock_auth-roundtrip}

authenticating : Unit {0}
unfolding validate_request_auth validate_oidc_auth validate_mock_auth extract_bearer_token
    parse_mock_header parse_mock_token enforce_required_oidc_claims decode_options
    split_claim_values claim_or lower strip count partition split split_spaces starts_with text_beq
    lookup insert
authenticating = tt

abbrev claims : Claims
claims =
    (codes "tenant_id", str (codes "tenant-a"))
    ∷ (codes "sub", str (codes "ann"))
    ∷ (codes "token_use", str (codes "access"))
    ∷ (codes "scope", str (codes "openid llm"))
    ∷ []

-- A library that knows one key and accepts every token under it.
abbrev pub one_key : JwtLibrary
one_key = record {
  Key = Unit;
  get_signing_key_from_jwt = λ url token. some tt;
  decode = λ token key options. some claims;
}

abbrev bearer : Option Text
bearer = some (codes "bearer  abc ")

abbrev ann : AuthenticatedPrincipal
ann = record {
  tenant_id = codes "tenant-a";
  user_id = codes "ann";
  claims = claims;
  auth_mode = AuthMode.oidc;
}

oidc_ok : validate_oidc_auth one_key bearer tenant_a settings ≡ ok ann
unfolding authenticating
oidc_ok = refl

oidc_errors :
    (validate_oidc_auth one_key none tenant_a settings ≡ err Reason.missing_token)
    × (validate_oidc_auth one_key (some (codes "Basic x")) tenant_a settings
        ≡ err Reason.invalid_token)
    × (validate_oidc_auth one_key bearer (record tenant_a { oidc_jwks_url = none }) settings
        ≡ err Reason.jwks_not_configured)
    × (validate_oidc_auth one_key bearer tenant_a
          (record settings { oidc_required_groups = codes "ops" ∷ [] })
        ≡ err Reason.required_group_missing)
    × (validate_oidc_auth one_key bearer (record tenant_a { tenant_claim = codes "org" }) settings
        ≡ err Reason.tenant_claim_missing)
unfolding authenticating
oidc_errors = (refl, refl, refl, refl, refl)

mock_header :
    (parse_mock_header (codes "tenant = tenant-a; USER=ann") ≡ ok (codes "tenant-a", codes "ann"))
    × (parse_mock_header (codes "tenant_id=t") ≡ err Reason.invalid_mock_header)
unfolding authenticating
mock_header = (refl, refl)

validate_oidc_auth-IsVerified_example :
    (validate_oidc_auth one_key bearer tenant_a settings ≡ ok ann)
    ↔ IsVerified one_key bearer tenant_a settings ann
validate_oidc_auth-IsVerified_example =
    validate_oidc_auth-IsVerified one_key bearer tenant_a settings ann

validate_mock_auth-roundtrip_example :
    validate_mock_auth
      (some (codes "Bearer " ++ mock_token (codes "tenant-a") (codes "u:1")))
      none
      tenant_a
      settings
    ≡ ok (mock_principal tenant_a (codes "tenant-a") (codes "u:1"))
unfolding authenticating
validate_mock_auth-roundtrip_example =
    validate_mock_auth-roundtrip (codes "tenant-a") (codes "u:1") none tenant_a settings refl refl
      refl refl refl
