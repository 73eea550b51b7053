-- ===== src/Gateway/Slots.antt =====
-- The quota slot of a request in the handler of main.py and at the end of a stream.
use saa_s_governance_layer_r.Common.{
  ◌≡◌, refl, ◌∙◌, sym, inl, inr, Bool, true, false, Option, none, some, Text, Dict, codes, ℕ, ok, ℤ,
  subst, ap, is_some, if-true, some_unique, Bool-cases,
}
use saa_s_governance_layer_r.Auth.{JwtLibrary}
use saa_s_governance_layer_r.Policy.{Schema}
use saa_s_governance_layer_r.Headers.{build_outbound_headers}
use saa_s_governance_layer_r.Quota.{QuotaEnforcer}
use saa_s_governance_layer_r.Gateway.{
  Application, Request, Admitted, UpstreamAnswer, opened, failed, Stream, Reply, streaming, raised,
  header_of,
}
use saa_s_governance_layer_r.Gateway.Admission.{authorize}
use saa_s_governance_layer_r.Gateway.Frame.{check_quota-IsChecked, send-IsSent, send-streamed}
use saa_s_governance_layer_r.Gateway.Handler.{
  State, request_id_of, check_quota, finish_quota, send, forward, serve, handle_llm_request,
  close_stream, streaming_response,
}

module _ (schema : Schema) (jwt : JwtLibrary) (enforcer : QuotaEnforcer)
    (estimate_input_tokens : schema.Body → Option ℤ) where
  open schema use {Body, stream}

  abbrev S : Type 0
  S = State schema jwt enforcer estimate_input_tokens

  -- A request that was authorized, granted by the quota, and whose headers could be built.
  pub record IsServed (app : Application) (s : S) (req : Request Body) : Type 0 where
    pub admitted : Admitted Body
    pub before : enforcer.State
    pub headers : Dict Text Text
    pub authorized : authorize schema jwt app req ≡ ok admitted
    pub limited : s.quota ≡ some before
    pub granted :
        (enforcer.check_and_record before admitted.tenant_id admitted.user_id admitted.tenant.limits
          (estimate_input_tokens admitted.body)
          (request_id_of req)
          req.now).1.allowed
        ≡ true
    pub built :
        build_outbound_headers req.headers admitted.tenant admitted.tenant_id admitted.user_id
          (request_id_of req)
        ≡ some headers

  -- The slot of the request, in a state of the gateway.
  abbrev pub HoldsSlot : S → Request Body → Admitted Body → Bool → Type 0
  HoldsSlot s req a held =
      (q : enforcer.State) × (s.quota ≡ some q)
      × (enforcer.in_flight q a.tenant_id a.user_id (request_id_of req) ≡ held)

  finish_quota-HoldsSlot :
      (s : S) (q : enforcer.State) (t u rid : Text)
      → s.quota ≡ some q
      → (finish_quota schema jwt enforcer estimate_input_tokens s t u rid).quota
        ≡ some (enforcer.finish_request q t u rid)
  unfolding finish_quota
  finish_quota-HoldsSlot s q t u rid on = simp (on, finish_quota)

  module _ (app : Application) (s : S) (req : Request Body) (answer : UpstreamAnswer)
      (w : IsServed app s req) where
    abbrev checked : S
    checked = (check_quota schema jwt enforcer estimate_input_tokens s req w.admitted).0

    abbrev granted_state : enforcer.State
    granted_state =
        (enforcer.check_and_record w.before w.admitted.tenant_id w.admitted.user_id
          w.admitted.tenant.limits (estimate_input_tokens w.admitted.body) (request_id_of req)
          req.now).0

    checked-quota : checked.quota ≡ some granted_state
    checked-quota =
        (check_quota-IsChecked schema jwt enforcer estimate_input_tokens s req w.admitted).on
          w.before w.limited

    granted-none : (check_quota schema jwt enforcer estimate_input_tokens s req w.admitted).1 ≡ none
    granted-none =
        (check_quota-IsChecked schema jwt enforcer estimate_input_tokens s req w.admitted).granted.1
          (λ q e.
            subst
              (λ x.
                (enforcer.check_and_record x w.admitted.tenant_id w.admitted.user_id
                  w.admitted.tenant.limits (estimate_input_tokens w.admitted.body)
                  (request_id_of req) req.now).1.allowed
                ≡ true)
              (some_unique w.limited e) w.granted)

    -- A request that is served reaches the upstream.
    handle-send :
        handle_llm_request schema jwt enforcer estimate_input_tokens app s req answer
        ≡ send schema jwt enforcer estimate_input_tokens app checked req w.admitted w.headers answer
    unfolding handle_llm_request serve forward
    handle-send = rw (w.authorized, handle_llm_request, serve, granted-none, forward, w.built) refl

    sent-plain :
        stream w.admitted.body ≡ false
        → HoldsSlot
            (send schema jwt enforcer estimate_input_tokens app checked req w.admitted w.headers
              answer).0
            req
            w.admitted
            false
    sent-plain plain = (
      _,
      (send-IsSent schema jwt enforcer estimate_input_tokens app checked req w.admitted w.headers
              answer).freed
            plain
          ∙ finish_quota-HoldsSlot checked granted_state _ _ _ checked-quota,
      enforcer.finished granted_state w.admitted.tenant_id w.admitted.user_id (request_id_of req),
    )

    sent-streamed :
        stream w.admitted.body ≡ true
        → HoldsSlot
            (send schema jwt enforcer estimate_input_tokens app checked req w.admitted w.headers
              answer).0
            req
            w.admitted
            true
    sent-streamed streamed = (
      granted_state,
      (send-IsSent schema jwt enforcer estimate_input_tokens app checked req w.admitted w.headers
              answer).streamed
            streamed
          ∙ checked-quota,
      enforcer.admitted w.before w.admitted.tenant_id w.admitted.user_id w.admitted.tenant.limits
          (estimate_input_tokens w.admitted.body) (request_id_of req) req.now w.granted,
    )

    abbrev sent : S × Reply
    sent =
        send schema jwt enforcer estimate_input_tokens app checked req w.admitted w.headers answer

    sent-HoldsSlot : HoldsSlot sent.0 req w.admitted (stream w.admitted.body)
    sent-HoldsSlot = elim (Bool-cases (stream w.admitted.body)) [
      | inl on ↦ subst (λ held. HoldsSlot sent.0 req w.admitted held) (sym on) (sent-streamed on)
      | inr off ↦ subst (λ held. HoldsSlot sent.0 req w.admitted held) (sym off) (sent-plain off)
    ]

    checked-is_some : is_some checked.quota ≡ true
    checked-is_some = rw checked-quota refl

    -- The stream of a call that the upstream has opened.
    abbrev stream_of : (status_code : ℕ) → Stream
    stream_of status_code = record {
      request_id = request_id_of req;
      tenant_id = w.admitted.tenant_id;
      user_id = w.admitted.user_id;
      decision = w.admitted.decision;
      domain = header_of (codes "host") req.headers;
      status_code = status_code;
      quota_recorded = is_some checked.quota;
    }

    close_stream-freed :
        (later : S) (q : enforcer.State) (n : ℕ)
        → later.quota ≡ some q
        → HoldsSlot
            (close_stream schema jwt enforcer estimate_input_tokens later (stream_of n))
            req
            w.admitted
            false
    unfolding close_stream
    close_stream-freed later q n on = (
      enforcer.finish_request q w.admitted.tenant_id w.admitted.user_id (request_id_of req),
      ap (λ (x : S). x.quota) (if-true later checked-is_some)
          ∙ finish_quota-HoldsSlot later q _ _ _ on,
      enforcer.finished q w.admitted.tenant_id w.admitted.user_id (request_id_of req),
    )

  -- When a request that is no stream has been served, its slot is free again, whatever the upstream
  -- answered and also when the call raised; a stream's slot is still held when the handler returns.
  pub handle_llm_request-HoldsSlot :
      (app : Application) (s : S) (req : Request Body) (answer : UpstreamAnswer)
      (w : IsServed app s req)
      → HoldsSlot
          (handle_llm_request schema jwt enforcer estimate_input_tokens app s req answer).0
          req
          w.admitted
          (stream w.admitted.body)
  handle_llm_request-HoldsSlot app s req answer w =
      subst (λ (r : S × Reply). HoldsSlot r.0 req w.admitted (stream w.admitted.body))
        (sym (handle-send app s req answer w)) (sent-HoldsSlot app s req answer w)

  -- Serving a stream that the upstream opens gives the client a stream whose end, in whatever state
  -- of an enforcing gateway, frees the slot of the request.
  pub close_stream-HoldsSlot :
      (app : Application) (s later : S) (req : Request Body) (n : ℕ) (q : enforcer.State)
      (w : IsServed app s req)
      → stream w.admitted.body ≡ true
      → later.quota ≡ some q
      → (st : Stream) × ((handle_llm_request schema jwt enforcer estimate_input_tokens app s req
            (opened n)).1
          ≡ streaming st)
        × HoldsSlot
            (close_stream schema jwt enforcer estimate_input_tokens later st)
            req
            w.admitted
            false
  unfolding streaming_response
  close_stream-HoldsSlot app s later req n q w on limited = (
    stream_of app s req (opened n) w n,
    ap (λ r. r.1)
        (handle-send app s req (opened n) w
          ∙ send-streamed schema jwt enforcer estimate_input_tokens app _ req w.admitted w.headers
              (opened n) on),
    close_stream-freed app s req (opened n) w later q n limited,
  )

  -- When the upstream fails to open a stream, the exception leaves the handler with the slot still
  -- held, no event is reported, and there is no stream whose end could free it.
  pub stream_failed-HoldsSlot :
      (app : Application) (s : S) (req : Request Body) (w : IsServed app s req)
      → stream w.admitted.body ≡ true
      → let r = handle_llm_request schema jwt enforcer estimate_input_tokens app s req failed in
        (r.1 ≡ raised) × (r.0.events ≡ s.events) × HoldsSlot r.0 req w.admitted true
  unfolding streaming_response
  stream_failed-HoldsSlot app s req w on =
      let same =
        handle-send app s req failed w
        ∙ send-streamed schema jwt enforcer estimate_input_tokens app _ req w.admitted w.headers
            failed on in
      (
        ap (λ r. r.1) same,
        ap (λ r. r.0.events) same
            ∙ (check_quota-IsChecked schema jwt enforcer estimate_input_tokens s req
                w.admitted).events,
        subst
            (λ held.
              HoldsSlot
                (handle_llm_request schema jwt enforcer estimate_input_tokens app s req failed).0
                req w.admitted held)
            on (handle_llm_request-HoldsSlot app s req failed w),
      )
