-- ===== src/Metrics.antt =====
-- slo_metrics.py: the counters, and the text that Prometheus reads. Milliseconds are kept as whole
-- microseconds. `sorted` and the text of a sum of milliseconds are parameters.
pub mod Counts
mod Tests
use saa_s_governance_layer_r.Metering.{join_lines}
use saa_s_governance_layer_r.Common.{
  ℕ, ◌+◌, Bool, true, false, List, [], ◌∷◌, ◌++◌, Option, none, some, Text, codes, text_eq, pair_eq,
  nat_eq, Eq, ◌==◌, ℤ, pos, negsuc, Dict, lookup, insert, get_or, nat_beq, show, map, if◌then◌else◌,
}

pub record SloMetrics : Type 0 where
  pub request_counts : Dict (Text × (Text × Text)) ℕ
  pub upstream_status_counts : Dict ℕ ℕ
  pub latency_us_sum : ℕ
  pub latency_count : ℕ
  pub ttft_us_sum : ℕ
  pub ttft_count : ℕ
  pub stream_completion_token_hints : ℕ

abbrev pub no_metrics : SloMetrics
no_metrics = record {
  request_counts = [];
  upstream_status_counts = [];
  latency_us_sum = 0;
  latency_count = 0;
  ttft_us_sum = 0;
  ttft_count = 0;
  stream_completion_token_hints = 0;
}

-- `tenant_id or "unknown"`
unfoldable pub tenant_label : Option Text → Text
tenant_label none = codes "unknown"
tenant_label (some []) = codes "unknown"
tenant_label (some (c ∷ s)) = c ∷ s

-- The arguments of `record` and of `record_stream`.
pub record Request : Type 0 where
  pub tenant_id : Option Text
  pub decision : Text
  pub reason : Text
  pub latency_us : ℕ
  pub upstream_status_code : Option ℕ

pub record StreamEnd : Type 0 where
  pub ttft_us : Option ℕ
  pub token_count_hint : ℤ

abbrev pub key_of : Request → Text × (Text × Text)
key_of r = (tenant_label r.tenant_id, (r.decision, r.reason))

-- `counter[key] += 1`
unfoldable pub count_up : {K : Type 0} → ⦃e : Eq K⦄ → K → Dict K ℕ → Dict K ℕ
count_up k d = insert k (get_or (lookup k d) 0 + 1) d

unfoldable pub record_request : SloMetrics → Request → SloMetrics
unfolding count_up tenant_label
record_request s r = record s {
  request_counts = count_up (key_of r) s.request_counts;
  upstream_status_counts = elim r.upstream_status_code [
    | none ↦ s.upstream_status_counts
    | some code ↦ count_up code s.upstream_status_counts
  ];
  latency_us_sum = s.latency_us_sum + r.latency_us;
  latency_count = s.latency_count + 1;
}

-- `max(0, token_count_hint)`
abbrev pub hint_of : ℤ → ℕ
hint_of (pos n) = n
hint_of (negsuc n) = 0

unfoldable pub record_stream : SloMetrics → StreamEnd → SloMetrics
record_stream s r = record s {
  ttft_us_sum = s.ttft_us_sum + get_or r.ttft_us 0;
  ttft_count = s.ttft_count + (elim r.ttft_us [ none ↦ 0 | some t ↦ 1 ]);
  stream_completion_token_hints = s.stream_completion_token_hints + hint_of r.token_count_hint;
}

-- `_escape`
unfoldable pub escape : Text → Text
escape [] = []
escape (c ∷ s) =
    if nat_beq c b'\\'
    then b'\\' ∷ b'\\' ∷ escape s
    else if nat_beq c b'"'
    then b'\\' ∷ b'"' ∷ escape s
    else c ∷ escape s

-- One sample of a request counter.
unfoldable pub request_line : (Text × (Text × Text)) × ℕ → Text
unfolding escape
request_line ((tenant_id, (decision, reason)), count) =
    codes "tenant_policy_gateway_requests_total{tenant_id=\""
    ++ (escape tenant_id
        ++ (codes "\",decision=\""
            ++ (escape decision
                ++ (codes "\",reason=\"" ++ (escape reason ++ (codes "\"} " ++ show count))))))

unfoldable pub status_line : ℕ × ℕ → Text
status_line (code, count) =
    codes "tenant_policy_gateway_upstream_status_total{status_code=\""
    ++ (show code ++ (codes "\"} " ++ show count))

-- The three lines of one counter without labels.
unfoldable pub counter_lines : (name help value : Text) → List Text
counter_lines name help value =
    (codes "# HELP " ++ (name ++ b' ' ∷ help))
    ∷ (codes "# TYPE " ++ (name ++ codes " counter"))
    ∷ (name ++ b' ' ∷ value)
    ∷ []

-- `prometheus_text`
unfoldable pub prometheus_text :
    (sorted_requests : Dict (Text × (Text × Text)) ℕ → Dict (Text × (Text × Text)) ℕ)
    → (sorted_statuses : Dict ℕ ℕ → Dict ℕ ℕ) → (show_ms : ℕ → Text) → SloMetrics
    → Text
unfolding request_line status_line counter_lines join_lines
prometheus_text sorted_requests sorted_statuses show_ms s =
    join_lines (
      codes "# HELP tenant_policy_gateway_requests_total Requests handled by the policy gateway."
        ∷ codes "# TYPE tenant_policy_gateway_requests_total counter"
        ∷ map request_line (sorted_requests s.request_counts)
      ++ (counter_lines (codes "tenant_policy_gateway_latency_ms_sum")
            (codes "Total observed gateway latency in milliseconds.") (show_ms s.latency_us_sum)
          ++ (counter_lines (codes "tenant_policy_gateway_latency_ms_count")
                (codes "Count of latency observations.") (show s.latency_count)
              ++ (counter_lines (codes "tenant_policy_gateway_ttft_ms_sum")
                    (codes "Total observed streaming time-to-first-token in milliseconds.")
                    (show_ms s.ttft_us_sum)
                  ++ (counter_lines (codes "tenant_policy_gateway_ttft_ms_count")
                        (codes "Count of TTFT observations.") (show s.ttft_count)
                      ++ (counter_lines
                            (codes "tenant_policy_gateway_stream_completion_token_hints_total")
                            (codes "Token hints seen in streaming responses.")
                            (show s.stream_completion_token_hints)
                          ++ (codes
                                "# HELP tenant_policy_gateway_upstream_status_total Upstream status codes observed."
                              ∷ codes "# TYPE tenant_policy_gateway_upstream_status_total counter"
                              ∷ map status_line (sorted_statuses s.upstream_status_counts))))))))
    ++ b'\n' ∷ []
