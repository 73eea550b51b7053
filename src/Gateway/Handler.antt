-- ===== src/Gateway/Handler.antt =====
-- The second half of the handler: the quota, the headers, the upstream, the ledger and the reply;
-- and the end of a stream.
use saa_s_governance_layer_r.Common.{
  ℕ, false, [], ◌∷◌, ◌++◌, Option, none, some, Text, codes, ok, err, is_some, if◌then◌else◌, Dict,
  ℤ, ltb,
}
use saa_s_governance_layer_r.Reason.{Reason}
use saa_s_governance_layer_r.Settings.{AppSettings, bills_usage}
use saa_s_governance_layer_r.Auth.{JwtLibrary}
use saa_s_governance_layer_r.Policy.{PolicyDecision, Schema}
use saa_s_governance_layer_r.Headers.{build_outbound_headers}
use saa_s_governance_layer_r.Quota.{QuotaDecision, QuotaEnforcer, effective_request_id}
use saa_s_governance_layer_r.Billing.{
  UsageTokens, BillingLedger, AppendResult, append, require_usage_tokens,
}
use saa_s_governance_layer_r.Gateway.{
  Application, Request, Admitted, denied, assertion_error, header_of, denial, UpstreamResponse,
  UpstreamAnswer, answered, opened, failed, GatewayState, Stream, Reply, replied, streaming, raised,
  event_of,
}
use saa_s_governance_layer_r.Gateway.Admission.{authorize}

-- `request.headers.get("x-request-id") or str(uuid4())`
unfoldable pub request_id_of : {Body : Type 0} → Request Body → Text
request_id_of req = effective_request_id (header_of (codes "x-request-id") req.headers) req.uuid

-- The `except BillingLedgerError` around `append`
unfoldable pub after_append : BillingLedger × AppendResult → BillingLedger × Option (ℕ × Reason)
after_append (ledger, AppendResult.queue_full) = (ledger, some (503, Reason.billing_queue_full))
after_append (ledger, AppendResult.not_billed) = (ledger, none)
after_append (ledger, AppendResult.duplicate) = (ledger, none)
after_append (ledger, AppendResult.accepted) = (ledger, none)

-- The ledger after a reply of the upstream, and the denial if the reply may not be passed on.
unfoldable pub bill_usage :
    AppSettings
    → BillingLedger
    → (request_id tenant_id user_id model : Text) → (adapter : Option Text) → (created_at : Text)
    → Option UsageTokens
    → BillingLedger × Option (ℕ × Reason)
unfolding after_append
bill_usage settings ledger request_id tenant_id user_id model adapter created_at ledger_usage =
    if bills_usage settings.billing_mode
    then elim ledger_usage [
      | none ↦ (ledger, some (502, Reason.billing_usage_missing))
      | some usage ↦ after_append (
          append ledger (record {
            request_id = request_id;
            tenant_id = tenant_id;
            user_id = user_id;
            model = model;
            adapter = adapter;
            usage = usage;
            aws_sink = false;
            created_at = created_at;
          }))
    ]
    else (ledger, none)

module _ (schema : Schema) (jwt : JwtLibrary) (enforcer : QuotaEnforcer)
    (estimate_input_tokens : schema.Body → Option ℤ) where
  open schema use {Body, stream}

  abbrev pub State : Type 0
  State = GatewayState Body enforcer.State

  -- `_emit_and_respond`
  unfoldable pub emit_and_respond :
      State
      → Request Body
      → PolicyDecision
      → (retry_after upstream_status_code : Option ℕ) → State × Reply
  emit_and_respond s req decision retry_after upstream_status_code = (
    record s {
      events =
          s.events
          ++ event_of (request_id_of req) (header_of (codes "host") req.headers) decision
              upstream_status_code
            ∷ [];
    },
    replied decision.status_code retry_after,
  )

  -- The call of `check_and_record`, if there is an enforcer; the second part is a refusal.
  unfoldable pub check_quota : State → Request Body → Admitted Body → State × Option QuotaDecision
  check_quota s req a = elim s.quota [
    | none ↦ (s, none)
    | some q ↦
        let (q', d) =
          enforcer.check_and_record q a.tenant_id a.user_id a.tenant.limits
            (estimate_input_tokens a.body) (request_id_of req) req.now in
        (record s { quota = some q' }, if d.allowed then none else some d)
  ]

  -- `if quota_recorded and quota_enforcer is not None: quota_enforcer.finish_request(...)`
  unfoldable pub finish_quota : State → (tenant_id user_id request_id : Text) → State
  finish_quota s tenant_id user_id request_id = elim s.quota [
    | none ↦ s
    | some q ↦ record s { quota = some (enforcer.finish_request q tenant_id user_id request_id) }
  ]

  -- From the upstream's reply to the client's.
  unfoldable pub respond :
      Application → State → Request Body → Admitted Body → UpstreamResponse → State × Reply
  unfolding bill_usage emit_and_respond
  respond app s req a upstream =
      let (ledger, refused) =
        bill_usage app.settings s.ledger (request_id_of req) a.tenant_id a.user_id a.model
          a.decision.adapter req.created_at (require_usage_tokens upstream.usage) in
      let billed : State = record s { ledger = ledger } in
      elim refused [
        | some (status_code, reason) ↦
            emit_and_respond billed req (denial a.decision status_code reason) none
              (some upstream.status_code)
        | none ↦
            emit_and_respond billed req (record a.decision { status_code = upstream.status_code })
              none (some upstream.status_code)
      ]

  -- `_streaming_response`, up to the client's first read
  unfoldable pub streaming_response :
      State → Request Body → Admitted Body → UpstreamAnswer → State × Reply
  streaming_response s req a (opened status_code) = (
    s,
    streaming (record {
      request_id = request_id_of req;
      tenant_id = a.tenant_id;
      user_id = a.user_id;
      decision = a.decision;
      domain = header_of (codes "host") req.headers;
      status_code = status_code;
      quota_recorded = is_some s.quota;
    }),
  )
  streaming_response s req a (answered upstream) = (s, raised)
  streaming_response s req a failed = (s, raised)

  -- After `forward_to_upstream`, whose `finally` has freed the slot.
  unfoldable pub plain_response :
      Application → State → Request Body → Admitted Body → UpstreamAnswer → State × Reply
  unfolding respond
  plain_response app s req a (answered upstream) = respond app s req a upstream
  plain_response app s req a (opened status_code) = (s, raised)
  plain_response app s req a failed = (s, raised)

  -- The call of the upstream. An answer of the other kind than the call's counts as an exception.
  unfoldable pub send :
      Application
      → State
      → Request Body
      → Admitted Body
      → Dict Text Text
      → UpstreamAnswer
      → State × Reply
  unfolding streaming_response plain_response finish_quota
  send app s req a headers answer =
      let called : State = record s {
        calls =
            s.calls
            ++ record {
              path = req.path;
              body = a.body;
              headers = headers;
              streamed = stream a.body;
            }
              ∷ [];
      } in
      if stream a.body
      then streaming_response called req a answer
      else plain_response app (finish_quota called a.tenant_id a.user_id (request_id_of req)) req a
          answer

  -- From the quota on. A template that does not format raises.
  unfoldable pub forward :
      Application → State → Request Body → Admitted Body → UpstreamAnswer → State × Reply
  unfolding send
  forward app s req a answer =
      elim (build_outbound_headers req.headers a.tenant a.tenant_id a.user_id (request_id_of req)) [
        | none ↦ (s, raised)
        | some headers ↦ send app s req a headers answer
      ]

  -- The handling of an authorized request.
  unfoldable pub serve :
      Application → State → Request Body → Admitted Body → UpstreamAnswer → State × Reply
  unfolding check_quota forward emit_and_respond
  serve app s req a answer =
      let (checked, refused) = check_quota s req a in
      elim refused [
        | some d ↦
            emit_and_respond checked req (denial a.decision d.status_code d.reason)
              d.retry_after_seconds none
        | none ↦ forward app checked req a answer
      ]

  -- `_handle_llm_request`; `answer` is what the upstream does if it is called.
  unfoldable pub handle_llm_request :
      Application → State → Request Body → UpstreamAnswer → State × Reply
  unfolding serve emit_and_respond
  handle_llm_request app s req answer = elim (authorize schema jwt app req) [
    | err (denied decision) ↦ emit_and_respond s req decision none none
    | err assertion_error ↦ (s, raised)
    | ok a ↦ serve app s req a answer
  ]

  -- The `finally` of a stream's iterator, when the stream ends or the client goes away.
  unfoldable pub close_stream : State → Stream → State
  unfolding finish_quota
  close_stream s st =
      let freed =
        if st.quota_recorded then finish_quota s st.tenant_id st.user_id st.request_id else s in
      let good = ltb st.status_code 400 in
      record freed {
        events =
            freed.events
            ++ event_of st.request_id st.domain
                (record st.decision {
                  allowed = good;
                  status_code = st.status_code;
                  reason = if good then Reason.stream_allowed else Reason.upstream_stream_error;
                })
                (some st.status_code)
              ∷ [];
      }
