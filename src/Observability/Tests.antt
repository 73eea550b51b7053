-- ===== src/Observability/Tests.antt =====
-- Two events, reported to a file.
use saa_s_governance_layer_r.Common.{
  ◌≡◌, refl, true, false, [], ◌∷◌, none, some, codes, text_eq, text_beq, pair_eq, nat_eq, lookup,
  insert, length, err,
}
use saa_s_governance_layer_r.Settings.{AuditSinkMode}
use saa_s_governance_layer_r.Examples.{settings}
use saa_s_governance_layer_r.Metrics.{record_request, count_up, tenant_label}
use saa_s_governance_layer_r.Observability.{
  MeteringEvent, Report, emit, emit_observability, open_sink, jsonl_path_required,
}
use saa_s_governance_layer_r.Observability.Agree.{Agree, run, unreported, run-Agree}

abbrev denied : MeteringEvent
denied = record {
  request_id = codes "r1";
  tenant_id = none;
  user_id = none;
  domain = some (codes "a.local");
  model = none;
  adapter = none;
  decision = codes "deny";
  status_code = 404;
  reason = codes "unknown_tenant";
  latency_us = 250;
  estimated_input_tokens = none;
  estimated_input_token_source = none;
  estimated_input_tokens_billing_grade = false;
  estimated_output_tokens = none;
  estimated_output_token_source = none;
  estimated_output_tokens_billing_grade = false;
  upstream_status_code = none;
}

abbrev written : Report
written = record { event = denied; writable = true }

abbrev unwritten : Report
unwritten = record { event = denied; writable = false }

observability_tests :
    (length
        (run settings
          (unreported false AuditSinkMode.jsonl)
          (written ∷ unwritten ∷ written ∷ [])).audit_sink.lines
      ≡ 2)
    × (lookup
          (codes "unknown", (codes "deny", codes "unknown_tenant"))
          (run settings
            (unreported false AuditSinkMode.jsonl)
            (written ∷ unwritten ∷ written ∷ [])).slo_metrics.request_counts
        ≡ some 2)
    × ((run settings (unreported true AuditSinkMode.disabled) (written ∷ [])).audit_sink.lines ≡ [])
    × (open_sink AuditSinkMode.jsonl none ≡ err jsonl_path_required)
unfolding run emit emit_observability record_request count_up tenant_label lookup insert text_beq
    open_sink
observability_tests = (refl, refl, refl, refl)

run-Agree_example :
    Agree (run settings (unreported false AuditSinkMode.jsonl) (written ∷ unwritten ∷ written ∷ []))
run-Agree_example =
    run-Agree settings false AuditSinkMode.jsonl (written ∷ unwritten ∷ written ∷ []) refl
