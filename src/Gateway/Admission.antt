-- ===== src/Gateway/Admission.antt =====
-- The first half of the handler: every test before the quota, in order, and what has been
-- established when all have passed.
use saa_s_governance_layer_r.Common.{
  ◌≡◌, refl, Bool, true, false, not, Option, none, some, List, Text, codes, Result, ok, err, ◌>>=◌,
  ◌>>◌, guard, is_some, if◌then◌else◌, >>=-eq-ok, guard-eq-ok, ok-injective, subst, sym, ap,
  some_unique, arith, ◌∙◌, ℕ,
}
use saa_s_governance_layer_r.Reason.{Reason}
use saa_s_governance_layer_r.Settings.{AppSettings, bills_usage}
use saa_s_governance_layer_r.Registry.{TenantConfig}
use saa_s_governance_layer_r.Auth.{AuthenticatedPrincipal, JwtLibrary, validate_request_auth}
use saa_s_governance_layer_r.Policy.{
  ParsedGatewayRequest, RequestAttributes, PolicyDecision, Schema, parse_gateway_request_body,
  evaluate_policy,
}
use saa_s_governance_layer_r.Policy.Decide.{IsPermitted, allowing, evaluate_policy_sound}
use saa_s_governance_layer_r.Governance.{evaluate_adapter_governance}
use saa_s_governance_layer_r.Gateway.{
  Application, Request, Admitted, Rejection, denied, header_of, plain_denial, denial, or_assert,
  or_denied, or_invalid_json, principal_of, auth_error_of, resolve,
}

module _ (schema : Schema) (jwt : JwtLibrary) where
  open schema use {Body, stream}

  unfoldable pub streaming_billing_is_blocked : AppSettings → Body → Bool
  streaming_billing_is_blocked settings body =
      if not (stream body)
      then false
      else if settings.allow_streaming_without_billing_usage
      then false
      else bills_usage settings.billing_mode

  -- The authentication of the handler: only at a tenant that was resolved.
  unfoldable pub authenticate :
      Application
      → List (Text × Text)
      → Option TenantConfig
      → Option AuthenticatedPrincipal × Option Reason
  authenticate app headers none = (none, none)
  authenticate app headers (some tenant) =
      let result =
        validate_request_auth jwt (header_of (codes "authorization") headers)
          (header_of (codes "x-mock-auth") headers) tenant app.settings in
      (principal_of result, auth_error_of result)

  -- `evaluate_policy` on a parsed request.
  unfoldable pub decide : Application → Request Body → RequestAttributes → PolicyDecision
  unfolding authenticate
  decide app req attributes =
      let domain = header_of (codes "host") req.headers in
      let (principal, auth_error) = authenticate app req.headers (resolve app.registry domain) in
      evaluate_policy app.registry attributes principal auth_error

  -- From the policy's decision to the quota.
  unfoldable pub admit : Application → PolicyDecision → Body → Result Rejection (Admitted Body)
  unfolding streaming_billing_is_blocked
  admit app decision body = do
    guard decision.allowed (denied decision)
    tenant ← or_assert decision.tenant
    tenant_id ← or_assert decision.tenant_id
    user_id ← or_assert decision.user_id
    model ← or_assert decision.model
    let governed =
        evaluate_adapter_governance tenant model decision.adapter
          app.settings.adapter_governance_mode
    guard governed.allowed (denied (denial decision governed.status_code governed.reason))
    guard (not (streaming_billing_is_blocked app.settings body))
        (denied (denial decision 400 Reason.streaming_billing_not_supported))
    ok (record {
      tenant = tenant;
      tenant_id = tenant_id;
      user_id = user_id;
      model = model;
      decision = decision;
      body = body;
    })

  -- `_handle_llm_request` up to the quota.
  unfoldable pub authorize : Application → Request Body → Result Rejection (Admitted Body)
  unfolding decide admit
  authorize app req = do
    guard (not (is_some app.posture_block))
        (denied (plain_denial 503 Reason.security_posture_blocked))
    body ← or_invalid_json req.body
    parsed ←
        or_denied 400
          (parse_gateway_request_body schema (header_of (codes "host") req.headers) body req.path)
    admit app (decide app req parsed.attributes) parsed.body

  or_assert-ok : {A : Type 0} {a : A} (o : Option A) → or_assert o ≡ ok a → o ≡ some a
  or_assert-ok none h = cc
  or_assert-ok (some b) h = ground arith

  not-true : (b : Bool) → not b ≡ true → b ≡ false
  not-true b h = ground arith

  not-some : {A : Type 0} (o : Option A) → not (is_some o) ≡ true → o ≡ none
  not-some o h = ground arith

  -- What `admit` has established.
  pub record IsAdmissible (app : Application) (decision : PolicyDecision) (body : Body)
      (a : Admitted Body) : Type 0 where
    pub allowed : decision.allowed ≡ true
    pub tenant : decision.tenant ≡ some a.tenant
    pub tenant_id : decision.tenant_id ≡ some a.tenant_id
    pub user_id : decision.user_id ≡ some a.user_id
    pub model : decision.model ≡ some a.model
    pub governed :
        (evaluate_adapter_governance a.tenant a.model decision.adapter
          app.settings.adapter_governance_mode).allowed
        ≡ true
    pub billable : streaming_billing_is_blocked app.settings body ≡ false
    pub carried : a.decision ≡ decision
    pub sent : a.body ≡ body

  admit-IsAdmissible :
      (app : Application) (decision : PolicyDecision) (body : Body) (a : Admitted Body)
      → admit app decision body ≡ ok a
      → IsAdmissible app decision body a
  unfolding admit
  admit-IsAdmissible app decision body a h =
      let (u, allowed, h1) = >>=-eq-ok _ _ h in
      let (tenant, has_tenant, h2) = >>=-eq-ok _ _ h1 in
      let (tenant_id, has_id, h3) = >>=-eq-ok _ _ h2 in
      let (user_id, has_user, h4) = >>=-eq-ok _ _ h3 in
      let (model, has_model, h5) = >>=-eq-ok _ _ h4 in
      let (v, governed, h6) = >>=-eq-ok _ _ h5 in
      let (w, billable, h7) = >>=-eq-ok _ _ h6 in
      subst (IsAdmissible app decision body) (ok-injective h7) (record {
        allowed = guard-eq-ok _ _ allowed;
        tenant = or_assert-ok _ has_tenant;
        tenant_id = or_assert-ok _ has_id;
        user_id = or_assert-ok _ has_user;
        model = or_assert-ok _ has_model;
        governed = guard-eq-ok _ _ governed;
        billable = not-true _ (guard-eq-ok _ _ billable);
        carried = refl;
        sent = refl;
      })

  -- What stands behind a request that reaches the quota.
  pub record IsAuthorized (app : Application) (req : Request Body) (a : Admitted Body)
      : Type 0 where
    pub raw : Body
    pub parsed : ParsedGatewayRequest Body
    pub unblocked : app.posture_block ≡ none
    pub received : req.body ≡ some raw
    pub parses :
        parse_gateway_request_body schema (header_of (codes "host") req.headers) raw req.path
        ≡ ok parsed
    pub permitted :
        IsPermitted app.registry parsed.attributes
          (authenticate app req.headers
            (resolve app.registry (header_of (codes "host") req.headers))).0
    pub decision : a.decision ≡ allowing permitted.tenant permitted.user parsed.attributes
    pub tenant : a.tenant ≡ permitted.tenant
    pub tenant_id : a.tenant_id ≡ permitted.tenant.tenant_id
    pub user_id : a.user_id ≡ permitted.user.user_id
    pub model : parsed.attributes.model ≡ some a.model
    pub body : a.body ≡ parsed.body
    pub governed :
        (evaluate_adapter_governance a.tenant a.model parsed.attributes.adapter
          app.settings.adapter_governance_mode).allowed
        ≡ true
    pub billable : streaming_billing_is_blocked app.settings a.body ≡ false

  or_invalid_json-ok : {A : Type 0} {a : A} (o : Option A) → or_invalid_json o ≡ ok a → o ≡ some a
  or_invalid_json-ok none h = cc
  or_invalid_json-ok (some b) h = ground arith

  or_denied-ok :
      {A : Type 0} {a : A} (n : ℕ) (r : Result Reason A) → or_denied n r ≡ ok a → r ≡ ok a
  or_denied-ok n (ok b) h = ground arith
  or_denied-ok n (err e) h = cc

  -- A request goes to the quota only if no security finding blocks the gateway, its body is a JSON
  -- object that parses, the policy permits it to the principal its own headers authenticate at the
  -- tenant of its Host header, the governance of adapters accepts its adapter for its model, and it
  -- is no stream whose use must be billed; and then the tenant, user, model and body that go on are
  -- those that were checked.
  pub authorize_sound :
      (app : Application) (req : Request Body) (a : Admitted Body)
      → authorize app req ≡ ok a
      → IsAuthorized app req a
  unfolding authorize decide
  authorize_sound app req a h =
      let (u, unblocked, h1) = >>=-eq-ok _ _ h in
      let (raw, received, h2) = >>=-eq-ok _ _ h1 in
      let (parsed, parses, h3) = >>=-eq-ok _ _ h2 in
      let w = admit-IsAdmissible app (decide app req parsed.attributes) parsed.body a h3 in
      let (permitted, whole) = evaluate_policy_sound _ _ _ _ w.allowed in
      record {
        raw = raw;
        parsed = parsed;
        unblocked = not-some _ (guard-eq-ok _ _ unblocked);
        received = or_invalid_json-ok _ received;
        parses = or_denied-ok _ _ parses;
        permitted = permitted;
        decision = w.carried ∙ whole;
        tenant = some_unique w.tenant (ap (λ d. d.tenant) whole);
        tenant_id = some_unique w.tenant_id (ap (λ d. d.tenant_id) whole);
        user_id = some_unique w.user_id (ap (λ d. d.user_id) whole);
        model = sym (ap (λ d. d.model) whole) ∙ w.model;
        body = w.sent;
        governed =
            subst
              (λ adapter.
                (evaluate_adapter_governance a.tenant a.model adapter
                  app.settings.adapter_governance_mode).allowed
                ≡ true)
              (ap (λ d. d.adapter) whole) w.governed;
        billable = rw w.sent w.billable;
      }
