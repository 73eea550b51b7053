-- ===== src/Metrics/Tests.antt =====
-- Three requests and a stream.
use saa_s_governance_layer_r.Common.{
  ◌≡◌, refl, List, [], ◌∷◌, Option, none, some, Text, codes, text_eq, text_beq, pair_eq, nat_eq,
  lookup, insert, negsuc,
}
use saa_s_governance_layer_r.Metrics.{
  no_metrics, Request, escape, record_request, record_stream, count_up, tenant_label,
}
use saa_s_governance_layer_r.Metrics.Counts.{Observation, request, stream, run}

abbrev refused : Option Text → Request
refused tenant_id = record {
  tenant_id = tenant_id;
  decision = codes "deny";
  reason = codes "model_not_allowed";
  latency_us = 1500;
  upstream_status_code = none;
}

abbrev log : List Observation
log =
    request (refused (some (codes "a")))
    ∷ request (refused none)
    ∷ stream (record { ttft_us = some 900; token_count_hint = negsuc 2 })
    ∷ request (refused (some []))
    ∷ []

metrics_tests :
    ((run no_metrics log).request_counts
      ≡ ((codes "a", (codes "deny", codes "model_not_allowed")), 1)
        ∷ ((codes "unknown", (codes "deny", codes "model_not_allowed")), 2)
        ∷ [])
    × ((run no_metrics log).latency_us_sum ≡ 4500)
    × ((run no_metrics log).stream_completion_token_hints ≡ 0)
    × (escape (codes "a\"b\\") ≡ codes "a\\\"b\\\\")
unfolding run record_request record_stream count_up tenant_label lookup insert text_beq escape
metrics_tests = (refl, refl, refl, refl)
