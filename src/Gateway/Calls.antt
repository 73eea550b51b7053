-- ===== src/Gateway/Calls.antt =====
-- What must hold before the upstream is called.
use saa_s_governance_layer_r.Common.{
  ◌≡◌, refl, ◌∙◌, inl, inr, [], ◌∷◌, ◌++◌, Option, some, ℤ, Option-cases, Result-cases,
}
use saa_s_governance_layer_r.Auth.{JwtLibrary}
use saa_s_governance_layer_r.Policy.{Schema}
use saa_s_governance_layer_r.Headers.{build_outbound_headers}
use saa_s_governance_layer_r.Quota.{QuotaEnforcer}
use saa_s_governance_layer_r.Gateway.{
  Application, Request, Admitted, denied, assertion_error, UpstreamCall, UpstreamAnswer,
}
use saa_s_governance_layer_r.Gateway.Admission.{authorize, IsAuthorized, authorize_sound}
use saa_s_governance_layer_r.Gateway.Frame.{IsGranted, check_quota-IsChecked, send-IsSent}
use saa_s_governance_layer_r.Gateway.Handler.{
  State, request_id_of, emit_and_respond, check_quota, forward, serve, handle_llm_request,
}

module _ (schema : Schema) (jwt : JwtLibrary) (enforcer : QuotaEnforcer)
    (estimate_input_tokens : schema.Body → Option ℤ) where
  open schema use {Body, stream}

  abbrev S : Type 0
  S = State schema jwt enforcer estimate_input_tokens

  -- A call that the handler may make for a request.
  pub record IsCallOf (app : Application) (s : S) (req : Request Body) (call : UpstreamCall Body)
      : Type 0 where
    pub admitted : Admitted Body
    pub authorized : IsAuthorized schema jwt app req admitted
    pub granted : IsGranted schema jwt enforcer estimate_input_tokens s req admitted
    pub body : call.body ≡ admitted.body
    pub path : call.path ≡ req.path
    pub streamed : call.streamed ≡ stream admitted.body
    pub headers :
        build_outbound_headers req.headers admitted.tenant admitted.tenant_id admitted.user_id
          (request_id_of req)
        ≡ some call.headers

  -- The calls after a request: none more, or one that it may make.
  pub data Calls (app : Application) (s : S) (req : Request Body) (after : S) : Type 0 where
    uncalled : after.calls ≡ s.calls → Calls app s req after
    called :
        (call : UpstreamCall Body)
        → after.calls ≡ s.calls ++ call ∷ []
        → IsCallOf app s req call
        → Calls app s req after

  module _ (app : Application) (s : S) (req : Request Body) (answer : UpstreamAnswer) where
    forward-Calls :
        (a : Admitted Body) (checked : S)
        → IsAuthorized schema jwt app req a
        → IsGranted schema jwt enforcer estimate_input_tokens s req a
        → checked.calls ≡ s.calls
        → Calls app s req
            (forward schema jwt enforcer estimate_input_tokens app checked req a answer).0
    unfolding forward
    forward-Calls a checked authorized granted same =
        elim (Option-cases
          (build_outbound_headers req.headers a.tenant a.tenant_id a.user_id (request_id_of req))) [
            | inl unformatted ↦ rw (unformatted, forward) (uncalled same)
            | inr (headers, built) ↦
                let sent =
                  send-IsSent schema jwt enforcer estimate_input_tokens app checked req a headers
                    answer in
                rw (built, forward)
                  (called _ (sent.calls ∙ rw same refl) (record {
                    admitted = a;
                    authorized = authorized;
                    granted = granted;
                    body = refl;
                    path = refl;
                    streamed = refl;
                    headers = built;
                  }))
          ]

    serve-Calls :
        (a : Admitted Body)
        → IsAuthorized schema jwt app req a
        → Calls app s req (serve schema jwt enforcer estimate_input_tokens app s req a answer).0
    unfolding serve emit_and_respond
    serve-Calls a authorized =
        let w = check_quota-IsChecked schema jwt enforcer estimate_input_tokens s req a in
        elim (Option-cases (check_quota schema jwt enforcer estimate_input_tokens s req a).1) [
          | inl granted ↦
              rw (granted, serve) (forward-Calls a _ authorized (w.granted.0 granted) w.calls)
          | inr (d, refused) ↦ rw (refused, serve) (uncalled w.calls)
        ]

  -- Whatever a request holds and whatever the upstream would answer, handling it calls the upstream at
  -- most once; and the call is only made for a request that is authorized and that the quota grants,
  -- to the path of the request, with the body that was checked, and with the headers built for the
  -- tenant and the user that were checked.
  pub handle_llm_request-Calls :
      (app : Application) (s : S) (req : Request Body) (answer : UpstreamAnswer)
      → Calls app s req
          (handle_llm_request schema jwt enforcer estimate_input_tokens app s req answer).0
  unfolding handle_llm_request emit_and_respond
  handle_llm_request-Calls app s req answer = elim (Result-cases (authorize schema jwt app req)) [
    | inl (a, passed) ↦
        rw (passed, handle_llm_request)
          (serve-Calls app s req answer a (authorize_sound schema jwt app req a passed))
    | inr (denied decision, stopped) ↦ rw (stopped, handle_llm_request) (uncalled refl)
    | inr (assertion_error, stopped) ↦ rw (stopped, handle_llm_request) (uncalled refl)
  ]
