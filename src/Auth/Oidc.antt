-- ===== src/Auth/Oidc.antt =====
-- What an accepted OIDC token has been checked for.
use saa_s_governance_layer_r.Common.{
  ◌≡◌, refl, subst, true, false, [], ok-injective, Option, some, none, Text, codes, text_eq, ok,
  lookup, is_empty, >>=-eq-ok, guard-eq-ok, ◌∷◌, ◌↔◌, inl, inr, Bool-cases, if◌then◌else◌, ap, sym,
}
use saa_s_governance_layer_r.Reason.{Reason}
use saa_s_governance_layer_r.Settings.{AppSettings, AuthMode, is_given}
use saa_s_governance_layer_r.Registry.{TenantConfig}
use saa_s_governance_layer_r.Auth.{
  str, AuthenticatedPrincipal, JwtLibrary, claim_or, DecodeOptions, decode_options,
  enforce_required_oidc_claims, validate_oidc_auth, validate_request_auth,
}
use saa_s_governance_layer_r.Auth.Checks.{
  IsBearer, IsNamed, HasRequiredClaims, extract_bearer_token-IsBearer,
  IsBearer-extract_bearer_token, claim_or-IsNamed, text_claim-ok, or_invalid-ok,
  enforce-HasRequiredClaims, HasRequiredClaims-enforce,
}

-- What PyJWT is asked to check: the tenant's audience and issuer, the algorithms and the leeway of the
-- settings, and that the token has the claims exp and iat, and nbf if the settings ask for it.
abbrev pub asked : TenantConfig → AppSettings → DecodeOptions
asked t s = record {
  algorithms = s.oidc_algorithms;
  audience = t.oidc_audience;
  issuer = t.oidc_issuer;
  leeway = s.oidc_leeway_seconds;
  require = codes "exp" ∷ codes "iat" ∷ (if s.oidc_require_nbf then codes "nbf" ∷ [] else []);
}

decode_options_lem : (t : TenantConfig) (s : AppSettings) → decode_options t s ≡ asked t s
unfolding decode_options
decode_options_lem t s = elim (Bool-cases s.oidc_require_nbf) [
  | inl needed ↦ rw (decode_options, needed) refl
  | inr free ↦ rw (decode_options, free) refl
]

-- A principal that a bearer token stands for.
pub record IsVerified (jwt : JwtLibrary) (authorization : Option Text) (t : TenantConfig)
    (s : AppSettings) (p : AuthenticatedPrincipal) : Type 0 where
  pub token : Text
  pub url : Text
  pub key : jwt.Key
  pub bearer : IsBearer authorization token
  pub configured : t.oidc_jwks_url ≡ some url
  pub has_url : is_empty url ≡ false
  pub signed : jwt.get_signing_key_from_jwt url token ≡ some key
  pub decoded : jwt.decode token key (asked t s) ≡ some p.claims
  pub required : HasRequiredClaims p.claims s
  pub tenant : lookup t.tenant_claim p.claims ≡ some (str p.tenant_id)
  pub has_tenant : is_empty p.tenant_id ≡ false
  pub user : IsNamed p.claims t.user_claim (codes "sub") p.user_id
  pub has_user : is_empty p.user_id ≡ false
  pub mode : p.auth_mode ≡ AuthMode.oidc

is_given-some :
    (o : Option Text)
    → is_given o ≡ true
    → let url : Text = elim o [ none ↦ [] | some u ↦ u ] in (o ≡ some url) × (is_empty url ≡ false)
is_given-some none h = cc h
is_given-some (some []) h = cc h
is_given-some (some (c ∷ u)) h = (refl, refl)

module _ (jwt : JwtLibrary) (authorization : Option Text) (t : TenantConfig) (s : AppSettings)
    (p : AuthenticatedPrincipal) where
  validate_oidc_auth_sound :
      validate_oidc_auth jwt authorization t s ≡ ok p → IsVerified jwt authorization t s p
  unfolding validate_oidc_auth
  validate_oidc_auth_sound h =
      let (token, bearer, h1) = >>=-eq-ok _ _ h in
      let (u, configured, h2) = >>=-eq-ok _ _ h1 in
      let (key, signed, h3) = >>=-eq-ok _ _ h2 in
      let (claims, decoded, h4) = >>=-eq-ok _ _ h3 in
      let (v, enforced, h5) = >>=-eq-ok _ _ h4 in
      let (tenant_id, tenant, h6) = >>=-eq-ok _ _ h5 in
      let (user_id, user, h7) = >>=-eq-ok _ _ h6 in
      let tenant_ok =
        text_claim-ok (lookup t.tenant_claim claims) Reason.tenant_claim_missing tenant_id tenant in
      let user_ok =
        text_claim-ok (claim_or t.user_claim (codes "sub") claims) Reason.user_claim_missing user_id
          user in
      let (given, has_url) =
        is_given-some t.oidc_jwks_url (guard-eq-ok _ Reason.jwks_not_configured configured) in
      subst (IsVerified jwt authorization t s) (ok-injective h7) (record {
        token = token;
        url = elim t.oidc_jwks_url [ none ↦ [] | some u ↦ u ];
        key = key;
        bearer = extract_bearer_token-IsBearer authorization token bearer;
        configured = given;
        has_url = has_url;
        signed = or_invalid-ok _ key signed;
        decoded =
            subst (λ o. jwt.decode token key o ≡ some claims) (decode_options_lem t s)
              (or_invalid-ok _ claims decoded);
        required = enforce-HasRequiredClaims claims t s v enforced;
        tenant = tenant_ok.0;
        has_tenant = tenant_ok.1;
        user = (claim_or-IsNamed claims t.user_claim (codes "sub") user_id user_ok.1).0 user_ok.0;
        has_user = user_ok.1;
        mode = refl;
      })

  validate_oidc_auth_complete :
      IsVerified jwt authorization t s p → validate_oidc_auth jwt authorization t s ≡ ok p
  unfolding validate_oidc_auth decode_options enforce_required_oidc_claims
  validate_oidc_auth_complete v =
      let named = claim_or-IsNamed p.claims t.user_claim (codes "sub") p.user_id v.has_user in
      rw
        (
          validate_oidc_auth,
          IsBearer-extract_bearer_token authorization v.token v.bearer,
          v.configured,
          v.has_url,
          v.signed,
          decode_options_lem t s,
          v.decoded,
          HasRequiredClaims-enforce p.claims t s p.tenant_id v.tenant v.required,
          v.tenant,
          v.has_tenant,
          named.1 v.user,
          v.has_user,
        )
        (ap
          (λ m. ok (record {
            tenant_id = p.tenant_id;
            user_id = p.user_id;
            claims = p.claims;
            auth_mode = m;
          }))
          (sym v.mode))

-- OIDC validation returns a principal exactly if the Authorization header is a bearer token that
-- PyJWT decodes to the principal's claims, under a key of the tenant's own JWKS URL, with the tenant's
-- audience and issuer, the algorithms and leeway of the settings and the time claims that they ask
-- for; the claims have the required token use and every required scope and group; and the principal's
-- tenant and user are the non-empty texts of the tenant's claims, the user's with `sub` in its place
-- where the claim has no true value.
pub validate_oidc_auth-IsVerified :
    (jwt : JwtLibrary) (authorization : Option Text) (t : TenantConfig) (s : AppSettings)
    (p : AuthenticatedPrincipal)
    → (validate_oidc_auth jwt authorization t s ≡ ok p) ↔ IsVerified jwt authorization t s p
validate_oidc_auth-IsVerified jwt authorization t s p = (
  validate_oidc_auth_sound jwt authorization t s p,
  validate_oidc_auth_complete jwt authorization t s p,
)

-- In OIDC mode the mock header changes nothing: the answer is that of the token alone.
pub validate_request_auth-oidc :
    (jwt : JwtLibrary) (authorization mock_auth_header : Option Text) (t : TenantConfig)
    (s : AppSettings)
    → s.auth_mode ≡ AuthMode.oidc
    → validate_request_auth jwt authorization mock_auth_header t s
      ≡ validate_oidc_auth jwt authorization t s
unfolding validate_request_auth
validate_request_auth-oidc jwt authorization mock_auth_header t s h = rw h
