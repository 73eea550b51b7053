-- ===== src/Gateway/Frame.antt =====
-- What each step of the handler leaves alone.
use saa_s_governance_layer_r.Common.{
  ◌≡◌, refl, ◌↔◌, ◌∙◌, subst, sym, ap, some_unique, if◌then◌else◌, inl, inr, true, false, List, [],
  ◌∷◌, ◌++◌, Option, none, some, Text, Dict, ℤ, ℕ, arith, if-true, if-false, Option-cases,
  Bool-cases,
}
use saa_s_governance_layer_r.Auth.{JwtLibrary}
use saa_s_governance_layer_r.Policy.{Schema, PolicyDecision}
use saa_s_governance_layer_r.Quota.{QuotaEnforcer, QuotaDecision}
use saa_s_governance_layer_r.Billing.{require_usage_tokens}
use saa_s_governance_layer_r.Gateway.{
  Application, Request, Admitted, UpstreamCall, UpstreamResponse, UpstreamAnswer, answered, opened,
  failed, MeteringEvent, Reply, replied, streaming, raised, Stream,
}
use saa_s_governance_layer_r.Gateway.Handler.{
  State, request_id_of, bill_usage, emit_and_respond, check_quota, finish_quota, respond, send,
  streaming_response, plain_response,
}

module _ (schema : Schema) (jwt : JwtLibrary) (enforcer : QuotaEnforcer)
    (estimate_input_tokens : schema.Body → Option ℤ) where
  open schema use {Body, stream}

  abbrev S : Type 0
  S = State schema jwt enforcer estimate_input_tokens

  -- A step that answers the client: one event, of the status of the reply.
  pub record IsReplied (s : S) (r : S × Reply) : Type 0 where
    pub event : MeteringEvent
    pub retry_after : Option ℕ
    pub quota : r.0.quota ≡ s.quota
    pub calls : r.0.calls ≡ s.calls
    pub events : r.0.events ≡ s.events ++ event ∷ []
    pub reply : r.1 ≡ replied event.status_code retry_after

  pub respond-IsReplied :
      (app : Application) (s : S) (req : Request Body) (a : Admitted Body) (up : UpstreamResponse)
      → IsReplied s (respond schema jwt enforcer estimate_input_tokens app s req a up)
  unfolding respond emit_and_respond
  respond-IsReplied app s req a up =
      elim (Option-cases
        (bill_usage app.settings s.ledger (request_id_of req) a.tenant_id a.user_id a.model
          a.decision.adapter req.created_at (require_usage_tokens up.usage)).1) [
            | inl fine ↦
                rw (fine, respond)
                  (record {
                    event = _;
                    retry_after = none;
                    quota = refl;
                    calls = refl;
                    events = refl;
                    reply = refl;
                  })
            | inr (refused, e) ↦
                rw (e, respond)
                  (record {
                    event = _;
                    retry_after = none;
                    quota = refl;
                    calls = refl;
                    events = refl;
                    reply = refl;
                  })
          ]

  -- Giving a slot back changes the quota only.
  pub finish_quota-frame :
      (s : S) (t u rid : Text)
      → let r = finish_quota schema jwt enforcer estimate_input_tokens s t u rid in
        (r.calls ≡ s.calls) × (r.events ≡ s.events) × (r.ledger ≡ s.ledger)
  unfolding finish_quota
  finish_quota-frame s t u rid = elim (Option-cases s.quota) [
    | inl off ↦ rw off (refl, refl, refl)
    | inr (q, on) ↦ rw on (refl, refl, refl)
  ]

  -- One event for a reply, of its status, and none for a stream or an exception.
  pub data Ending (before : List MeteringEvent) (r : S × Reply) : Type 0 where
    spoken :
        (e : MeteringEvent) (k : Option ℕ)
        → r.0.events ≡ before ++ e ∷ []
        → r.1 ≡ replied e.status_code k
        → Ending before r
    opened_stream : (st : Stream) → r.0.events ≡ before → r.1 ≡ streaming st → Ending before r
    left : r.0.events ≡ before → r.1 ≡ raised → Ending before r

  pub emit_and_respond-Ending :
      (s : S) (req : Request Body) (decision : PolicyDecision)
      (retry_after upstream_status_code : Option ℕ)
      → Ending s.events (
          emit_and_respond schema jwt enforcer estimate_input_tokens s req decision retry_after
            upstream_status_code)
  unfolding emit_and_respond
  emit_and_respond-Ending s req decision retry_after upstream_status_code = spoken _ _ refl refl

  streaming_response-Ending :
      (s : S) (req : Request Body) (a : Admitted Body) (answer : UpstreamAnswer)
      → let r = streaming_response schema jwt enforcer estimate_input_tokens s req a answer in
        (r.0.calls ≡ s.calls) × (r.0.quota ≡ s.quota) × Ending s.events r
  unfolding streaming_response
  streaming_response-Ending s req a (opened n) = (refl, refl, opened_stream _ refl refl)
  streaming_response-Ending s req a (answered up) = (refl, refl, left refl refl)
  streaming_response-Ending s req a failed = (refl, refl, left refl refl)

  plain_response-Ending :
      (app : Application) (s : S) (req : Request Body) (a : Admitted Body) (answer : UpstreamAnswer)
      → let r = plain_response schema jwt enforcer estimate_input_tokens app s req a answer in
        (r.0.calls ≡ s.calls) × (r.0.quota ≡ s.quota) × Ending s.events r
  unfolding plain_response
  plain_response-Ending app s req a (answered up) =
      let w = respond-IsReplied app s req a up in
      (w.calls, w.quota, spoken w.event w.retry_after w.events w.reply)
  plain_response-Ending app s req a (opened n) = (refl, refl, left refl refl)
  plain_response-Ending app s req a failed = (refl, refl, left refl refl)

  abbrev call_of : Request Body → Admitted Body → Dict Text Text → UpstreamCall Body
  call_of req a headers = record {
    path = req.path;
    body = a.body;
    headers = headers;
    streamed = stream a.body;
  }

  abbrev with_call : S → Request Body → Admitted Body → Dict Text Text → S
  with_call s req a headers = record s { calls = s.calls ++ call_of req a headers ∷ [] }

  -- What a call of the upstream leaves, whatever the answer.
  pub record IsSent (s : S) (req : Request Body) (a : Admitted Body) (headers : Dict Text Text)
      (r : S × Reply) : Type 0 where
    pub calls : r.0.calls ≡ s.calls ++ call_of req a headers ∷ []
    pub streamed : stream a.body ≡ true → r.0.quota ≡ s.quota
    pub freed :
        stream a.body ≡ false
        → r.0.quota
          ≡ (finish_quota schema jwt enforcer estimate_input_tokens s a.tenant_id a.user_id
              (request_id_of req)).quota
    pub ending : Ending s.events r

  finish_quota-quota :
      (s s' : S) (t u rid : Text)
      → s.quota ≡ s'.quota
      → (finish_quota schema jwt enforcer estimate_input_tokens s t u rid).quota
        ≡ (finish_quota schema jwt enforcer estimate_input_tokens s' t u rid).quota
  unfolding finish_quota
  finish_quota-quota s s' t u rid same = elim (Option-cases s'.quota) [
    | inl off ↦ rw (same, off) refl
    | inr (q, on) ↦ rw (same, on) refl
  ]

  module _ (app : Application) (s : S) (req : Request Body) (a : Admitted Body)
      (headers : Dict Text Text) (answer : UpstreamAnswer) where
    abbrev freed : S
    freed =
        finish_quota schema jwt enforcer estimate_input_tokens (with_call s req a headers)
          a.tenant_id a.user_id (request_id_of req)

    pub send-streamed :
        stream a.body ≡ true
        → send schema jwt enforcer estimate_input_tokens app s req a headers answer
          ≡ streaming_response schema jwt enforcer estimate_input_tokens
              (with_call s req a headers)
              req
              a
              answer
    unfolding send
    send-streamed on = if-true _ on

    send-plain :
        stream a.body ≡ false
        → send schema jwt enforcer estimate_input_tokens app s req a headers answer
          ≡ plain_response schema jwt enforcer estimate_input_tokens app freed req a answer
    unfolding send
    send-plain off = if-false _ off

    pub send-IsSent :
        IsSent s req a headers
          (send schema jwt enforcer estimate_input_tokens app s req a headers answer)
    send-IsSent = elim (Bool-cases (stream a.body)) [
      | inl on ↦
          let w = streaming_response-Ending (with_call s req a headers) req a answer in
          subst (IsSent s req a headers) (sym (send-streamed on))
            (record { calls = w.0; streamed = (λ e. w.1); freed = (λ e. cc (on, e)); ending = w.2 })
      | inr off ↦
          let frame =
            finish_quota-frame (with_call s req a headers) a.tenant_id a.user_id
              (request_id_of req) in
          let w = plain_response-Ending app freed req a answer in
          subst (IsSent s req a headers) (sym (send-plain off)) (record {
            calls = w.0 ∙ frame.0;
            streamed = (λ e. cc (off, e));
            freed = (λ e.
                w.1
                ∙ finish_quota-quota (with_call s req a headers) s a.tenant_id a.user_id
                    (request_id_of req) refl);
            ending =
                subst
                  (λ before. Ending before (
                    plain_response schema jwt enforcer estimate_input_tokens app freed req a
                      answer))
                  frame.1 w.2;
          })
    ]

  -- The quota, if there is one, grants the request.
  abbrev pub IsGranted : S → Request Body → Admitted Body → Type 0
  IsGranted s req a =
      (q : enforcer.State)
      → s.quota ≡ some q
      → (enforcer.check_and_record q a.tenant_id a.user_id a.tenant.limits
          (estimate_input_tokens a.body) (request_id_of req) req.now).1.allowed
        ≡ true

  -- The two results of the quota's check; both change the quota only.
  pub record IsChecked (s : S) (req : Request Body) (a : Admitted Body)
      (r : S × Option QuotaDecision) : Type 0 where
    pub calls : r.0.calls ≡ s.calls
    pub events : r.0.events ≡ s.events
    pub ledger : r.0.ledger ≡ s.ledger
    pub off : s.quota ≡ none → r.0.quota ≡ none
    pub on :
        (q : enforcer.State)
        → s.quota ≡ some q
        → r.0.quota
          ≡ some
              (enforcer.check_and_record q a.tenant_id a.user_id a.tenant.limits
                (estimate_input_tokens a.body)
                (request_id_of req)
                req.now).0
    pub granted : r.1 ≡ none ↔ IsGranted s req a

  check_quota-off :
      (s : S) (req : Request Body) (a : Admitted Body)
      → s.quota ≡ none
      → check_quota schema jwt enforcer estimate_input_tokens s req a ≡ (s, none)
  unfolding check_quota
  check_quota-off s req a off = simp (off, check_quota)

  abbrev checked : Request Body → Admitted Body → enforcer.State → enforcer.State × QuotaDecision
  checked req a q =
      enforcer.check_and_record q a.tenant_id a.user_id a.tenant.limits
        (estimate_input_tokens a.body) (request_id_of req) req.now

  check_quota-on :
      (s : S) (req : Request Body) (a : Admitted Body) (q : enforcer.State)
      → s.quota ≡ some q
      → check_quota schema jwt enforcer estimate_input_tokens s req a ≡ (
        record s { quota = some (checked req a q).0 },
        if (checked req a q).1.allowed then none else some (checked req a q).1,
      )
  unfolding check_quota
  check_quota-on s req a q on = rw (on, check_quota) refl

  refusal-none :
      (d : QuotaDecision)
      → ◌≡◌ {A = Option QuotaDecision} (if d.allowed then none else some d) none
        ↔ (d.allowed ≡ true)
  refusal-none d = ground arith

  pub check_quota-IsChecked :
      (s : S) (req : Request Body) (a : Admitted Body)
      → IsChecked s req a (check_quota schema jwt enforcer estimate_input_tokens s req a)
  check_quota-IsChecked s req a = elim (Option-cases s.quota) [
    | inl off ↦ subst (IsChecked s req a) (sym (check_quota-off s req a off)) (record {
      calls = refl;
      events = refl;
      ledger = refl;
      off = (λ e. e);
      on = (λ q e. cc (off, e));
      granted = ((λ e q h. cc (off, h)), (λ g. refl));
    })
    | inr (q, on) ↦ subst (IsChecked s req a) (sym (check_quota-on s req a q on)) (record {
      calls = refl;
      events = refl;
      ledger = refl;
      off = (λ e. cc (on, e));
      on = (λ p e. ap (λ x. some (checked req a x).0) (some_unique on e));
      granted = (
        (λ e p h.
            subst (λ x. (checked req a x).1.allowed ≡ true) (some_unique on h)
              ((refusal-none (checked req a q).1).0 e)),
        (λ g. (refusal-none (checked req a q).1).1 (g q on)),
      );
    })
  ]
