-- ===== src/Auth/Checks.antt =====
-- jwt_validation.py: what the checks of a token and of its claims mean.
use saa_s_governance_layer_r.Common.{
  ◌≡◌, refl, true, false, [], Option, some, none, Text, codes, text_eq, ok, arith, lookup, is_empty,
  >>=-eq-ok, guard-eq-ok, ◌∷◌, ◌++◌, ◌⊎◌, ◌↔◌, inl, inr, count, lower, strip, partition,
  partition-some, partition-first, Option-cases, Bool-cases, List, All, contains, if◌then◌else◌,
  Bool, ◌||◌, not, ◌==◌, ==_iff, ap, err, both, ℕ,
}
use saa_s_governance_layer_r.Reason.{Reason}
use saa_s_governance_layer_r.Settings.{AppSettings}
use saa_s_governance_layer_r.Registry.{TenantConfig}
use saa_s_governance_layer_r.Auth.{
  ClaimValue, null, str, list, other, Claims, extract_bearer_token, split_claim_values, claim_or,
  token_use_ok, holds_all, text_claim, or_invalid, is_true, is_text, enforce_required_oidc_claims,
}

pub text_claim-ok :
    (v : Option ClaimValue) (e : Reason) (s : Text)
    → text_claim v e ≡ ok s
    → (v ≡ some (str s)) × (is_empty s ≡ false)
text_claim-ok none e s h = cc
text_claim-ok (some null) e s h = cc
text_claim-ok (some (str t)) e s h = ground arith
text_claim-ok (some (list t)) e s h = cc
text_claim-ok (some (other t)) e s h = cc

pub or_invalid-ok {ℓ} : {A : Type ℓ} (o : Option A) (a : A) → or_invalid o ≡ ok a → o ≡ some a
or_invalid-ok none a h = cc
or_invalid-ok (some b) a h = ground arith

-- The token of an Authorization header `Bearer <token>`.
pub record IsBearer (authorization : Option Text) (token : Text) : Type 0 where
  pub scheme : Text
  pub rest : Text
  pub header : authorization ≡ some (scheme ++ b' ' ∷ rest)
  pub plain : count b' ' scheme ≡ 0
  pub named : lower scheme ≡ codes "bearer"
  pub given : is_empty rest ≡ false
  pub trimmed : strip rest ≡ token

bearer_tests :
    (named empty : Bool) (rest token : Text)
    → (if not named || empty then err Reason.invalid_token else ok rest) ≡ ok token
    → (named ≡ true) × (empty ≡ false) × (rest ≡ token)
bearer_tests named empty rest token h = ground arith

pub extract_bearer_token-IsBearer :
    (authorization : Option Text) (token : Text)
    → extract_bearer_token authorization ≡ ok token
    → IsBearer authorization token
unfolding extract_bearer_token
extract_bearer_token-IsBearer none token h = cc h
extract_bearer_token-IsBearer (some []) token h = cc h
extract_bearer_token-IsBearer (some (c ∷ s)) token h =
    elim (Option-cases (partition b' ' (c ∷ s))) [
      | inl whole ↦ cc (rw (extract_bearer_token, whole) at h)
      | inr ((scheme, rest), cut) ↦
          let (parts, plain) = partition-some b' ' (c ∷ s) scheme rest cut in
          let read = rw (extract_bearer_token, cut) at h in
          let (named, given, trimmed) =
            bearer_tests (lower scheme == codes "bearer") (is_empty rest) (strip rest) token read in
          record {
            scheme = scheme;
            rest = rest;
            header = ap some parts;
            plain = plain;
            named = (==_iff (lower scheme) (codes "bearer")).0 named;
            given = given;
            trimmed = trimmed;
          }
    ]

is_empty-append : (s : Text) (c : ℕ) (t : Text) → is_empty (s ++ c ∷ t) ≡ false
is_empty-append [] c t = refl
is_empty-append (d ∷ s) c t = refl

pub IsBearer-extract_bearer_token :
    (authorization : Option Text) (token : Text)
    → IsBearer authorization token
    → extract_bearer_token authorization ≡ ok token
unfolding extract_bearer_token
IsBearer-extract_bearer_token authorization token b =
    let named = (==_iff (lower b.scheme) (codes "bearer")).1 b.named in
    rw
      (
        b.header,
        is_empty-append b.scheme b' ' b.rest,
        partition-first b' ' b.scheme b.rest b.plain,
        named,
        b.given,
        b.trimmed,
      )
      refl

-- A claim with the user: the tenant's own, or `sub` where that has no true value.
abbrev pub IsNamed : Claims → (first second user : Text) → Type 0
IsNamed claims first second user =
    (lookup first claims ≡ some (str user))
    ⊎ ((is_true (lookup first claims) ≡ false) × (lookup second claims ≡ some (str user)))

pub claim_or-IsNamed :
    (claims : Claims) (first second user : Text)
    → is_empty user ≡ false
    → (claim_or first second claims ≡ some (str user)) ↔ IsNamed claims first second user
unfolding claim_or
claim_or-IsNamed claims first second user given = (
  (λ h. elim (Bool-cases (is_true (lookup first claims))) [
    | inl own ↦ inl (rw (claim_or, own) at h)
    | inr vain ↦ inr (vain, rw (claim_or, vain) at h)
  ]),
  (λ n. elim n [
    | inl own ↦ rw (claim_or, own, given) refl
    | inr (vain, sub) ↦ rw (claim_or, vain, sub) refl
  ]),
)

-- The claims carry what the settings require: the token use, if one is required, and every scope
-- and every group.
pub record HasRequiredClaims (claims : Claims) (settings : AppSettings) : Type 0 where
  pub token_use :
      (settings.oidc_required_token_use ≡ none)
      ⊎ ((use_ : Text) × (settings.oidc_required_token_use ≡ some use_)
          × (lookup (codes "token_use") claims ≡ some (str use_)))
  pub scopes :
      All
        (λ scope. contains (split_claim_values (lookup (codes "scope") claims)) scope ≡ true)
        settings.oidc_required_scopes
  pub groups :
      All
        (λ group.
          contains
            (split_claim_values (claim_or (codes "cognito:groups") (codes "groups") claims))
            group
          ≡ true)
        settings.oidc_required_groups

holds_all_iff :
    (required held : List Text)
    → (holds_all required held ≡ true) ↔ All (λ v. contains held v ≡ true) required
holds_all_iff [] held = ((λ h. tt), (λ h. refl))
holds_all_iff (v ∷ required) held =
    let rest = holds_all_iff required held in
    (
      (λ h. let (first, later) = both _ _ h in (first, rest.0 later)),
      (λ h. rw (h.0, rest.1 h.1) refl),
    )

is_text_iff : (s : Text) (v : Option ClaimValue) → (is_text s v ≡ true) ↔ (v ≡ some (str s))
is_text_iff s none = ((λ h. cc h), (λ h. cc h))
is_text_iff s (some null) = ((λ h. cc h), (λ h. cc h))
is_text_iff s (some (str t)) =
    ((λ h. ap (λ x. some (str x)) ((==_iff t s).0 h)), (λ h. (==_iff t s).1 (cc h)))
is_text_iff s (some (list parts)) = ((λ h. cc h), (λ h. cc h))
is_text_iff s (some (other b)) = ((λ h. cc h), (λ h. cc h))

token_use_iff :
    (required : Option Text) (claims : Claims)
    → (token_use_ok required claims ≡ true) ↔ (
        (required ≡ none)
        ⊎ ((use_ : Text) × (required ≡ some use_)
            × (lookup (codes "token_use") claims ≡ some (str use_))))
token_use_iff none claims = ((λ h. inl refl), (λ h. refl))
token_use_iff (some use_) claims =
    let same = is_text_iff use_ (lookup (codes "token_use") claims) in
    (
      (λ h. inr (use_, refl, same.0 h)),
      (λ h. elim h [ inl absent ↦ cc absent | inr (u, given, found) ↦ same.1 (cc (given, found)) ]),
    )

pub enforce-HasRequiredClaims :
    (claims : Claims) (t : TenantConfig) (s : AppSettings) (u : Unit {0})
    → enforce_required_oidc_claims claims t s ≡ ok u
    → HasRequiredClaims claims s
unfolding enforce_required_oidc_claims
enforce-HasRequiredClaims claims t s u h =
    let (a, use_, h1) = >>=-eq-ok _ _ h in
    let (b, scope, h2) = >>=-eq-ok _ _ h1 in
    let (c, group, scalar) = >>=-eq-ok _ _ h2 in
    record {
      token_use =
          (token_use_iff s.oidc_required_token_use claims).0
            (guard-eq-ok _ Reason.invalid_token_use use_);
      scopes =
          (holds_all_iff s.oidc_required_scopes _).0
            (guard-eq-ok _ Reason.required_scope_missing scope);
      groups =
          (holds_all_iff s.oidc_required_groups _).0
            (guard-eq-ok _ Reason.required_group_missing group);
    }

pub HasRequiredClaims-enforce :
    (claims : Claims) (t : TenantConfig) (s : AppSettings) (tenant_id : Text)
    → lookup t.tenant_claim claims ≡ some (str tenant_id)
    → HasRequiredClaims claims s
    → enforce_required_oidc_claims claims t s ≡ ok tt
unfolding enforce_required_oidc_claims
HasRequiredClaims-enforce claims t s tenant_id tenant h =
    rw
      (
        (token_use_iff s.oidc_required_token_use claims).1 h.token_use,
        (holds_all_iff s.oidc_required_scopes _).1 h.scopes,
        (holds_all_iff s.oidc_required_groups _).1 h.groups,
        tenant,
      )
      refl
