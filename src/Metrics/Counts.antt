-- ===== src/Metrics/Counts.antt =====
-- slo_metrics.py: the counters against the log of what was observed.
use saa_s_governance_layer_r.Common.{
  ℕ, ◌+◌, ◌≡◌, Bool, true, false, List, [], ◌∷◌, Option, none, some, Text, text_eq, pair_eq, nat_eq,
  Eq, ◌==◌, Dict, lookup, get_or, get_or-insert, ==_iff, Option-cases, arith, inl, inr,
}
use saa_s_governance_layer_r.Metrics.{
  SloMetrics, Request, StreamEnd, key_of, count_up, record_request, record_stream, hint_of,
}

-- A call of `record` or of `record_stream`.
pub data Observation : Type 0 where
  request : Request → Observation
  stream : StreamEnd → Observation

unfoldable pub observe : SloMetrics → Observation → SloMetrics
unfolding record_request record_stream
observe s (request r) = record_request s r
observe s (stream r) = record_stream s r

unfoldable pub run : SloMetrics → List Observation → SloMetrics
unfolding observe
run s [] = s
run s (o ∷ log) = run (observe s o) log

-- The sum of a number over the requests of a log, and over its streams.
unfoldable pub sum_requests : (Request → ℕ) → List Observation → ℕ
sum_requests f [] = 0
sum_requests f (request r ∷ log) = f r + sum_requests f log
sum_requests f (stream r ∷ log) = sum_requests f log

unfoldable pub sum_streams : (StreamEnd → ℕ) → List Observation → ℕ
sum_streams f [] = 0
sum_streams f (request r ∷ log) = sum_streams f log
sum_streams f (stream r ∷ log) = f r + sum_streams f log

abbrev pub one_if : Bool → ℕ
one_if true = 1
one_if false = 0

abbrev pub has_status : ℕ → Option ℕ → ℕ
has_status code none = 0
has_status code (some status) = one_if (status == code)

-- Every counter is what the log adds to it.
pub record Counts (log : List Observation) (s after : SloMetrics) : Type 0 where
  pub requests :
      (k : Text × (Text × Text))
      → get_or (lookup k after.request_counts) 0
        ≡ get_or (lookup k s.request_counts) 0 + sum_requests (λ r. one_if (key_of r == k)) log
  pub statuses :
      (code : ℕ)
      → get_or (lookup code after.upstream_status_counts) 0
        ≡ get_or (lookup code s.upstream_status_counts) 0
          + sum_requests (λ r. has_status code r.upstream_status_code) log
  pub latencies : after.latency_us_sum ≡ s.latency_us_sum + sum_requests (λ r. r.latency_us) log
  pub handled : after.latency_count ≡ s.latency_count + sum_requests (λ r. 1) log
  pub hints :
      after.stream_completion_token_hints
      ≡ s.stream_completion_token_hints + sum_streams (λ r. hint_of r.token_count_hint) log

get_or-count_up :
    {K : Type 0} ⦃e : Eq K⦄ (k j : K) (d : Dict K ℕ)
    → get_or (lookup j (count_up k d)) 0 ≡ get_or (lookup j d) 0 + one_if (k == j)
unfolding count_up
get_or-count_up k j d =
    ground (arith, get_or-insert k j (get_or (lookup k d) 0 + 1) 0 d, ==_iff k j)

pub observe-Counts : (s : SloMetrics) (o : Observation) → Counts (o ∷ []) s (observe s o)
unfolding observe sum_requests sum_streams
observe-Counts s (stream r) = record {
  requests = (λ k. omega arith);
  statuses = (λ code. omega arith);
  latencies = omega arith;
  handled = omega arith;
  hints = omega arith;
}
observe-Counts s (request r) = record {
  requests = (λ k. omega (arith, get_or-count_up (key_of r) k s.request_counts));
  statuses = (λ code. elim (Option-cases r.upstream_status_code) [
    | inl h ↦ rw h (omega arith)
    | inr (status, h) ↦ rw h (omega (arith, get_or-count_up status code s.upstream_status_counts))
  ]);
  latencies = omega arith;
  handled = omega arith;
  hints = omega arith;
}

sum_requests-cons :
    (f : Request → ℕ) (o : Observation) (log : List Observation)
    → sum_requests f (o ∷ log) ≡ sum_requests f (o ∷ []) + sum_requests f log
unfolding sum_requests
sum_requests-cons f (request r) log = omega arith
sum_requests-cons f (stream r) log = omega arith

sum_streams-cons :
    (f : StreamEnd → ℕ) (o : Observation) (log : List Observation)
    → sum_streams f (o ∷ log) ≡ sum_streams f (o ∷ []) + sum_streams f log
unfolding sum_streams
sum_streams-cons f (request r) log = omega arith
sum_streams-cons f (stream r) log = omega arith

-- After any log of handled requests and ended streams: the counter of a tenant, a decision and a reason
-- has grown by the requests of the log with these three, the counter of a status by those that had it
-- from the upstream, the sum of the latencies by theirs, their count by the number of requests, and
-- the token hints by those of the streams, a negative one counted as none.
pub run-Counts : (s : SloMetrics) (log : List Observation) → Counts log s (run s log)
unfolding run sum_requests sum_streams
run-Counts s [] = record {
  requests = (λ k. omega arith);
  statuses = (λ code. omega arith);
  latencies = omega arith;
  handled = omega arith;
  hints = omega arith;
}
run-Counts s (o ∷ log) =
    let one = observe-Counts s o in
    let rest = run-Counts (observe s o) log in
    record {
      requests = (λ k. omega (
        arith,
        one.requests k,
        rest.requests k,
        sum_requests-cons (λ r. one_if (key_of r == k)) o log,
      ));
      statuses = (λ code. omega (
        arith,
        one.statuses code,
        rest.statuses code,
        sum_requests-cons (λ r. has_status code r.upstream_status_code) o log,
      ));
      latencies =
          omega (arith, one.latencies, rest.latencies, sum_requests-cons (λ r. r.latency_us) o log);
      handled = omega (arith, one.handled, rest.handled, sum_requests-cons (λ r. 1) o log);
      hints =
          omega (
            arith,
            one.hints,
            rest.hints,
            sum_streams-cons (λ r. hint_of r.token_count_hint) o log,
          );
    }
