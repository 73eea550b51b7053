-- ===== src/Gateway/Tests.antt =====
-- The gateway at the sample tenants: a plain request and a stream of one user.
use saa_s_governance_layer_r.Common.{
  ◌≡◌, refl, Bool, true, false, [], ◌∷◌, Option, none, some, Text, codes, text_beq, arith, lower,
  strip, count, split, ends_with, lookup, insert, ok, ℤ, pos, Dict, partition, starts_with,
}
use saa_s_governance_layer_r.Reason.{Reason}
use saa_s_governance_layer_r.Settings.{AppSettings, BillingMode, SecurityPostureMode}
use saa_s_governance_layer_r.Registry.{resolve_by_host, normalize_host}
use saa_s_governance_layer_r.Examples.{settings, registry, tenant_a, model_name}
use saa_s_governance_layer_r.Auth.{
  JwtLibrary, validate_request_auth, validate_mock_auth, extract_bearer_token, parse_mock_token,
}
use saa_s_governance_layer_r.Policy.{
  Schema, normalize_non_empty_string, endpoint_from_path, validate_fields,
  parse_gateway_request_body, evaluate_policy,
}
use saa_s_governance_layer_r.Governance.{evaluate_adapter_governance}
use saa_s_governance_layer_r.Headers.{
  build_outbound_headers, outbound_headers, format, sanitize_inbound_headers, is_blocked,
  inject_trusted_headers,
}
use saa_s_governance_layer_r.Quota.{candidate_tokens, effective_request_id}
use saa_s_governance_layer_r.Quota.Memory.{
  InMemoryQuotaEnforcer, create, drop_expired_records, drop_stale_concurrency, retry_after,
  sum_input_tokens, pruned, violation, violation_at, recorded, check_and_record,
}
use saa_s_governance_layer_r.Quota.Memory.Enforcer.{in_memory}
use saa_s_governance_layer_r.Billing.{BillingLedger, UsageTokens}
use saa_s_governance_layer_r.Billing.Appends.{IsSound}
use saa_s_governance_layer_r.Gateway.{
  Application, Request, Admitted, header_of, UpstreamAnswer, answered, opened, failed, GatewayState,
  Stream, streaming, raised, replied,
}
use saa_s_governance_layer_r.Gateway.Admission.{
  authorize, authenticate, streaming_billing_is_blocked, IsAuthorized, authorize_sound,
}
use saa_s_governance_layer_r.Gateway.Handler.{
  request_id_of, handle_llm_request, close_stream, bill_usage,
}
use saa_s_governance_layer_r.Gateway.Calls.{Calls, handle_llm_request-Calls}
use saa_s_governance_layer_r.Posture.Enforced.{IsSecure}
use saa_s_governance_layer_r.Gateway.Ready.{lifespan, readyz, lifespan-IsSecure}
use saa_s_governance_layer_r.Gateway.Slots.{
  IsServed, HoldsSlot, handle_llm_request-HoldsSlot, close_stream-HoldsSlot,
  stream_failed-HoldsSlot,
}
use saa_s_governance_layer_r.Gateway.Billed.{IsBilled, entry_of, bill_usage-IsBilled}

-- A schema whose bodies are a model and the `stream` field.
abbrev model_and_stream : Schema
model_and_stream = record {
  Body = Text × Bool;
  has_key = λ key body. text_beq key (codes "messages");
  fields = λ endpoint body. some (body.0, none);
  model_dump = λ endpoint body model adapter. (model, body.1);
  stream = λ body. body.1;
}

abbrev no_keys : JwtLibrary
no_keys = record {
  Key = Unit;
  get_signing_key_from_jwt = λ url token. none;
  decode = λ token key options. none;
}

abbrev ten_tokens : Text × Bool → Option ℤ
ten_tokens body = some (pos 10)

abbrev app : Application
app = record { settings = settings; registry = some registry; posture_block = none }

abbrev request : Bool → Request (Text × Bool)
request streamed = record {
  path = codes "/v1/chat/completions";
  headers =
      (codes "host", codes "a.local")
      ∷ (codes "authorization", codes "Bearer mock:tenant-a:ann")
      ∷ (codes "x-request-id", codes "r1")
      ∷ [];
  body = some (codes " llama ", streamed);
  uuid = codes "u1";
  now = 1000;
  created_at = codes "now";
}

abbrev empty_ledger : BillingLedger
empty_ledger = record {
  mode = BillingMode.observability;
  batch_max_records = 1;
  queue_max_records = 3;
  seen_request_ids = record { max_size = 2; items = [] };
  queue = [];
  lines = [];
}

abbrev quota : InMemoryQuotaEnforcer
quota = create 60 900

abbrev start : GatewayState (Text × Bool) InMemoryQuotaEnforcer
start = record { quota = some quota; ledger = empty_ledger; calls = []; events = [] }

abbrev admitted : Bool → Admitted (Text × Bool)
admitted streamed = record {
  tenant = tenant_a;
  tenant_id = codes "tenant-a";
  user_id = codes "ann";
  model = model_name;
  decision = record {
    allowed = true;
    status_code = 200;
    reason = Reason.allowed;
    tenant = some tenant_a;
    tenant_id = some (codes "tenant-a");
    user_id = some (codes "ann");
    model = some model_name;
    adapter = none;
  };
  body = (model_name, streamed);
}

admitting : Unit {0}
unfolding authorize authenticate streaming_billing_is_blocked header_of parse_gateway_request_body
    endpoint_from_path validate_fields normalize_non_empty_string validate_request_auth
    validate_mock_auth extract_bearer_token parse_mock_token evaluate_policy
    evaluate_adapter_governance resolve_by_host normalize_host lower strip count split partition
    starts_with ends_with lookup text_beq
admitting = tt

granting : Unit {0}
unfolding check_and_record pruned recorded violation violation_at retry_after sum_input_tokens
    drop_expired_records drop_stale_concurrency candidate_tokens effective_request_id lookup insert
    text_beq request_id_of header_of lower
granting = tt

heading : Unit {0}
unfolding build_outbound_headers outbound_headers format sanitize_inbound_headers is_blocked
    inject_trusted_headers lookup insert text_beq request_id_of effective_request_id header_of lower
heading = tt

authorize_tests :
    (authorize model_and_stream no_keys app (request false) ≡ ok (admitted false))
    × (authorize model_and_stream no_keys app (request true) ≡ ok (admitted true))
unfolding admitting
authorize_tests = (refl, refl)

abbrev built_headers : Dict Text Text
built_headers =
    (codes "x-request-id", codes "r1")
    ∷ (codes "user", codes "tenant-a:ann")
    ∷ (codes "external-filter", codes "tenant=tenant-a")
    ∷ (codes "config-profile", codes "standard")
    ∷ (codes "x-internal-tenant-id", codes "tenant-a")
    ∷ (codes "x-internal-user-id", codes "ann")
    ∷ (codes "x-internal-kv-cache-isolation-required", codes "false")
    ∷ (codes "x-internal-runtime-isolation-mode", codes "shared_pool")
    ∷ []

served :
    (streamed : Bool)
    → IsServed model_and_stream no_keys in_memory ten_tokens app start (request streamed)
unfolding admitting granting heading
served true = record {
  admitted = admitted true;
  before = quota;
  headers = built_headers;
  authorized = authorize_tests.1;
  limited = refl;
  granted = refl;
  built = refl;
}
served false = record {
  admitted = admitted false;
  before = quota;
  headers = built_headers;
  authorized = authorize_tests.0;
  limited = refl;
  granted = refl;
  built = refl;
}

abbrev ok_answer : UpstreamAnswer
ok_answer = answered (record { status_code = 200; usage = none })

authorize_sound_example : IsAuthorized model_and_stream no_keys app (request false) (admitted false)
authorize_sound_example =
    authorize_sound model_and_stream no_keys app (request false) (admitted false) authorize_tests.0

handle_llm_request-Calls_example :
    Calls model_and_stream no_keys in_memory ten_tokens app start
      (request false)
      (handle_llm_request model_and_stream no_keys in_memory ten_tokens app start
        (request false)
        ok_answer).0
handle_llm_request-Calls_example =
    handle_llm_request-Calls model_and_stream no_keys in_memory ten_tokens app start (request false)
      ok_answer

handle_llm_request-HoldsSlot_example :
    HoldsSlot model_and_stream no_keys in_memory ten_tokens
      (handle_llm_request model_and_stream no_keys in_memory ten_tokens app start
        (request false)
        failed).0
      (request false)
      (admitted false)
      false
unfolding served
handle_llm_request-HoldsSlot_example =
    handle_llm_request-HoldsSlot model_and_stream no_keys in_memory ten_tokens app start
      (request false) failed (served false)

close_stream-HoldsSlot_example :
    (st : Stream) × ((handle_llm_request model_and_stream no_keys in_memory ten_tokens app start
        (request true)
        (opened 200)).1
      ≡ streaming st)
    × HoldsSlot model_and_stream no_keys in_memory ten_tokens
        (close_stream model_and_stream no_keys in_memory ten_tokens start st)
        (request true)
        (admitted true)
        false
unfolding served
close_stream-HoldsSlot_example =
    close_stream-HoldsSlot model_and_stream no_keys in_memory ten_tokens app start start
      (request true) 200 quota (served true) refl refl

stream_failed-HoldsSlot_example :
    let r =
      handle_llm_request model_and_stream no_keys in_memory ten_tokens app start
        (request true)
        failed in
    (r.1 ≡ raised)
    × (r.0.events ≡ [])
    × HoldsSlot model_and_stream no_keys in_memory ten_tokens r.0
        (request true)
        (admitted true)
        true
unfolding served
stream_failed-HoldsSlot_example =
    stream_failed-HoldsSlot model_and_stream no_keys in_memory ten_tokens app start (request true)
      (served true) refl

abbrev billing_settings : AppSettings
billing_settings = record settings { billing_mode = BillingMode.ledger_required }

abbrev billing_ledger : BillingLedger
billing_ledger = record empty_ledger { mode = BillingMode.ledger_required }

abbrev seven : UsageTokens
seven = record { prompt_tokens = 3; completion_tokens = 4; total_tokens = 7 }

billing_ledger-IsSound : IsSound billing_ledger
billing_ledger-IsSound = record {
  positive = omega arith;
  bounded = omega arith;
  room = omega arith;
  memory = record { unique = tt; bounded = omega arith };
}

bill_usage-IsBilled_example :
    IsBilled billing_ledger
      (some seven)
      (entry_of billing_settings billing_ledger
        (codes "r1")
        (codes "tenant-a")
        (codes "ann")
        model_name
        none
        (codes "now"))
      (bill_usage billing_settings billing_ledger
        (codes "r1")
        (codes "tenant-a")
        (codes "ann")
        model_name
        none
        (codes "now")
        (some seven))
bill_usage-IsBilled_example =
    bill_usage-IsBilled billing_settings billing_ledger (codes "r1") (codes "tenant-a")
      (codes "ann") model_name none (codes "now") (some seven) refl refl billing_ledger-IsSound

abbrev enforced : AppSettings
enforced = record settings { security_posture_mode = SecurityPostureMode.enforce }

insecure : ¬ IsSecure enforced
insecure w = cc (w.authenticated)

lifespan-IsSecure_example :
    let a = lifespan enforced (some registry) in
    let r =
      handle_llm_request model_and_stream no_keys in_memory ten_tokens a start
        (request false)
        ok_answer in
    (readyz a ≡ 503)
    × (r.1 ≡ replied 503 none)
    × (r.0.quota ≡ start.quota)
    × (r.0.calls ≡ start.calls)
    × (r.0.ledger ≡ start.ledger)
lifespan-IsSecure_example =
    lifespan-IsSecure model_and_stream no_keys in_memory ten_tokens enforced (some registry) start
      (request false) ok_answer refl insecure
