-- ===== src/Auth.antt =====
-- jwt_validation.py. Verifying a signature is PyJWT's part: it is the parameter `JwtLibrary`.
pub mod Checks
pub mod Oidc
pub mod Mock
mod Tests
use saa_s_governance_layer_r.Common.{
  ℕ, Bool, true, false, not, ◌&&◌, ◌||◌, List, [], ◌∷◌, Option, none, some, Text, codes, lower,
  strip, contains, text_eq, ◌==◌, if◌then◌else◌, Dict, lookup, insert, is_empty, partition, split,
  starts_with, all, filter, Result, ok, err, ◌>>=◌, ◌>>◌, guard, is_space, split_spaces,
}
use saa_s_governance_layer_r.Reason.{Reason}
use saa_s_governance_layer_r.Settings.{AppSettings, AuthMode, is_given}
use saa_s_governance_layer_r.Registry.{TenantConfig}

-- The value of a claim. `list` holds the `str` of each part; `other` is a number, a truth value or
-- an object, with its truth value.
pub data ClaimValue : Type 0 where
  null : ClaimValue
  str : Text → ClaimValue
  list : List Text → ClaimValue
  other : Bool → ClaimValue

abbrev pub Claims : Type 0
Claims = Dict Text ClaimValue

pub record AuthenticatedPrincipal : Type 0 where
  pub tenant_id : Text
  pub user_id : Text
  pub claims : Claims
  pub auth_mode : AuthMode

pub record DecodeOptions : Type 0 where
  pub algorithms : List Text
  pub audience : Text
  pub issuer : Text
  pub leeway : ℕ
  pub require : List Text

-- PyJWT: the signing key for a token at a JWKS URL, and `jwt.decode`; `none` is a `PyJWTError`.
pub record JwtLibrary : Type 1 where
  pub Key : Type 0
  pub get_signing_key_from_jwt : Text → Text → Option Key
  pub decode : Text → Key → DecodeOptions → Option Claims

unfoldable pub extract_bearer_token : Option Text → Result Reason Text
extract_bearer_token none = err Reason.missing_token
extract_bearer_token (some authorization) =
    if is_empty authorization
    then err Reason.missing_token
    else elim (partition b' ' authorization) [
      | none ↦ err Reason.invalid_token
      | some (scheme, token) ↦
          if not (lower scheme == codes "bearer") || is_empty token
          then err Reason.invalid_token
          else ok (strip token)
    ]

-- `parts.get(first) or parts.get(second)`, with the empty text for a false result
unfoldable pub get_either : Text → Text → Dict Text Text → Text
get_either first second parts = elim (lookup first parts) [
  | none ↦ elim (lookup second parts) [ none ↦ [] | some v ↦ v ]
  | some v ↦ if is_empty v then elim (lookup second parts) [ none ↦ [] | some w ↦ w ] else v
]

mock_segments : List Text → Dict Text Text → Dict Text Text
mock_segments [] parts = parts
mock_segments (segment ∷ segments) parts = mock_segments segments (elim (partition b'=' segment) [
  | none ↦ parts
  | some (key, value) ↦ insert (lower (strip key)) (strip value) parts
])

unfoldable pub parse_mock_header : Text → Result Reason (Text × Text)
unfolding mock_segments get_either
parse_mock_header header_value =
    let parts = mock_segments (split b';' header_value) [] in
    let tenant_id = get_either (codes "tenant") (codes "tenant_id") parts in
    let user_id = get_either (codes "user") (codes "user_id") parts in
    if is_empty tenant_id || is_empty user_id
    then err Reason.invalid_mock_header
    else ok (tenant_id, user_id)

abbrev mock_principal : TenantConfig → Text → Text → AuthenticatedPrincipal
mock_principal tenant tenant_id user_id = record {
  tenant_id = tenant_id;
  user_id = user_id;
  claims =
      insert (codes "mock") (other true)
        (insert tenant.user_claim (str user_id) (insert tenant.tenant_claim (str tenant_id) []));
  auth_mode = AuthMode.mock;
}

-- `token.split(":", 2)` of a token `mock:<tenant_id>:<user_id>`, after the prefix test
unfoldable pub parse_mock_token : Text → Result Reason (Text × Text)
parse_mock_token token =
    if not (starts_with token (codes "mock:"))
    then err Reason.invalid_mock_token
    else elim (partition b':' token) [
      | none ↦ err Reason.invalid_mock_token
      | some (scheme, rest) ↦ elim (partition b':' rest) [
        | none ↦ err Reason.invalid_mock_token
        | some (tenant_id, user_id) ↦
            if is_empty tenant_id || is_empty user_id
            then err Reason.invalid_mock_token
            else ok (tenant_id, user_id)
      ]
    ]

unfoldable pub validate_mock_auth :
    Option Text → Option Text → TenantConfig → AppSettings → Result Reason AuthenticatedPrincipal
validate_mock_auth authorization mock_auth_header tenant settings =
    if is_given mock_auth_header && settings.allow_mock_auth_header
    then (do
      (tenant_id, user_id) ← parse_mock_header (elim mock_auth_header [ none ↦ [] | some h ↦ h ])
      ok (mock_principal tenant tenant_id user_id))
    else (do
      token ← extract_bearer_token authorization
      (tenant_id, user_id) ← parse_mock_token token
      ok (mock_principal tenant tenant_id user_id))

unfoldable pub split_claim_values : Option ClaimValue → List Text
split_claim_values none = []
split_claim_values (some null) = []
split_claim_values (some (str s)) = split_spaces s
split_claim_values (some (list parts)) = filter (λ p. not (is_empty p)) parts
split_claim_values (some (other b)) = []

-- The truth value of `claims.get(…)`.
abbrev pub is_true : Option ClaimValue → Bool
is_true none = false
is_true (some null) = false
is_true (some (str s)) = not (is_empty s)
is_true (some (list parts)) = not (is_empty parts)
is_true (some (other b)) = b

-- `claims.get(first) or claims.get(second)`
unfoldable pub claim_or : Text → Text → Claims → Option ClaimValue
claim_or first second claims =
    if is_true (lookup first claims) then lookup first claims else lookup second claims

abbrev pub is_text : Text → Option ClaimValue → Bool
is_text s (some (str t)) = t == s
is_text s _ = false

abbrev pub token_use_ok : Option Text → Claims → Bool
token_use_ok none claims = true
token_use_ok (some use_) claims = is_text use_ (lookup (codes "token_use") claims)

-- `not [v for v in required if v not in set(held)]`
abbrev pub holds_all : List Text → List Text → Bool
holds_all required held = all (contains held) required

abbrev pub is_scalar : Option ClaimValue → Bool
is_scalar none = true
is_scalar (some null) = true
is_scalar (some (str s)) = true
is_scalar (some (list parts)) = false
is_scalar (some (other b)) = false

unfoldable pub enforce_required_oidc_claims :
    Claims → TenantConfig → AppSettings → Result Reason (Unit {0})
enforce_required_oidc_claims claims tenant settings = do
  guard (token_use_ok settings.oidc_required_token_use claims) Reason.invalid_token_use
  guard
      (holds_all settings.oidc_required_scopes (split_claim_values (lookup (codes "scope") claims)))
      Reason.required_scope_missing
  guard
      (holds_all settings.oidc_required_groups
        (split_claim_values (claim_or (codes "cognito:groups") (codes "groups") claims)))
      Reason.required_group_missing
  guard (is_scalar (lookup tenant.tenant_claim claims)) Reason.tenant_claim_invalid

-- A claim that is a non-empty text, or the error.
abbrev pub text_claim : Option ClaimValue → Reason → Result Reason Text
text_claim (some (str s)) e = if is_empty s then err e else ok s
text_claim _ e = err e

abbrev pub or_invalid {ℓ} : {A : Type ℓ} → Option A → Result Reason A
or_invalid none = err Reason.invalid_token
or_invalid (some a) = ok a

unfoldable pub decode_options : TenantConfig → AppSettings → DecodeOptions
decode_options tenant settings = record {
  algorithms = settings.oidc_algorithms;
  audience = tenant.oidc_audience;
  issuer = tenant.oidc_issuer;
  leeway = settings.oidc_leeway_seconds;
  require =
      if settings.oidc_require_nbf
      then codes "exp" ∷ codes "iat" ∷ codes "nbf" ∷ []
      else codes "exp" ∷ codes "iat" ∷ [];
}

module _ (jwt : JwtLibrary) where
  unfoldable pub validate_oidc_auth :
      Option Text → TenantConfig → AppSettings → Result Reason AuthenticatedPrincipal
  validate_oidc_auth authorization tenant settings = do
    token ← extract_bearer_token authorization
    guard (is_given tenant.oidc_jwks_url) Reason.jwks_not_configured
    let url : Text = elim tenant.oidc_jwks_url [ none ↦ [] | some u ↦ u ]
    key ← or_invalid (jwt.get_signing_key_from_jwt url token)
    claims ← or_invalid (jwt.decode token key (decode_options tenant settings))
    enforce_required_oidc_claims claims tenant settings
    tenant_id ← text_claim (lookup tenant.tenant_claim claims) Reason.tenant_claim_missing
    user_id ← text_claim (claim_or tenant.user_claim (codes "sub") claims) Reason.user_claim_missing
    ok (record {
      tenant_id = tenant_id;
      user_id = user_id;
      claims = claims;
      auth_mode = AuthMode.oidc;
    })

  unfoldable pub validate_request_auth :
      Option Text → Option Text → TenantConfig → AppSettings → Result Reason AuthenticatedPrincipal
  validate_request_auth authorization mock_auth_header tenant settings = elim settings.auth_mode [
    | AuthMode.mock ↦ validate_mock_auth authorization mock_auth_header tenant settings
    | AuthMode.oidc ↦ validate_oidc_auth authorization tenant settings
  ]
