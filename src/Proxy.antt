-- ===== src/Proxy.antt =====
-- proxy.py: the chunks of a stream, and what the stream iterator of main.py makes of them. Bytes are a
-- text; what httpx reads and what `json.dumps` writes are arguments. Times are in microseconds.
mod Tests
use saa_s_governance_layer_r.Common.{
  ℕ, ◌+◌, ◌-◌, ◌≡◌, refl, sym, ap, ◌∙◌, append-nil, append_assoc, Bool, true, false, not, ◌&&◌,
  ◌||◌, List, [], ◌∷◌, ◌++◌, Option, none, some, Text, codes, text_eq, ◌==◌, lower, ℤ, pos, Dict,
  filter, map, any, contains, is_empty, arith, if◌then◌else◌,
}
use saa_s_governance_layer_r.Metrics.{SloMetrics, StreamEnd, record_stream}

pub record StreamChunk : Type 0 where
  pub data_bytes : Text
  pub is_first_token : Bool
  pub token_count_hint : ℕ

-- `real_chunks`, behind the chunks already read
unfoldable pub chunks_from : (first : Bool) → List Text → List StreamChunk
chunks_from first [] = []
chunks_from first ([] ∷ later) = chunks_from first later
chunks_from first ((c ∷ s) ∷ later) =
    record { data_bytes = c ∷ s; is_first_token = first; token_count_hint = if first then 1 else 0 }
    ∷ chunks_from false later

unfoldable pub real_chunks : List Text → List StreamChunk
unfolding chunks_from
real_chunks read = chunks_from true read

abbrev event_line : Text → Text
event_line payload = codes "data: " ++ (payload ++ b'\n' ∷ b'\n' ∷ [])

-- `mock_chunks`, with the texts of its two payloads
unfoldable pub mock_chunks : (payload done : Text) → List StreamChunk
mock_chunks payload done =
    record { data_bytes = event_line payload; is_first_token = true; token_count_hint = 1 }
    ∷ record { data_bytes = event_line done; is_first_token = false; token_count_hint = 0 }
    ∷ record {
      data_bytes = event_line (codes "[DONE]");
      is_first_token = false;
      token_count_hint = 0;
    }
    ∷ []

abbrev trusted_header_names : List Text
trusted_header_names =
    codes "user"
    ∷ codes "external-filter"
    ∷ codes "config-profile"
    ∷ codes "x-internal-tenant-id"
    ∷ codes "x-internal-user-id"
    ∷ codes "x-internal-kv-cache-isolation-required"
    ∷ codes "x-internal-runtime-isolation-mode"
    ∷ []

-- `_visible_mock_headers`
unfoldable pub visible_mock_headers : Dict Text Text → Dict Text Text
visible_mock_headers headers = filter (λ h. contains trusted_header_names (lower h.0)) headers

-- The state of `iterator`: the time to the first token, the hints, and what the client was sent.
pub record Iteration : Type 0 where
  pub first_token_us : Option ℕ
  pub token_hint_total : ℕ
  pub sent : List Text

abbrev first_time : Bool → Option ℕ → ℕ → Option ℕ
first_time true none elapsed = some elapsed
first_time true (some t) elapsed = some t
first_time false t elapsed = t

-- The loop of `iterator`, over the chunks with the time since the start at which each was read
unfoldable pub iterate : Iteration → List (ℕ × StreamChunk) → Iteration
iterate i [] = i
iterate i ((elapsed, chunk) ∷ chunks) =
    iterate
      (record {
        first_token_us = first_time chunk.is_first_token i.first_token_us elapsed;
        token_hint_total = i.token_hint_total + chunk.token_count_hint;
        sent = i.sent ++ chunk.data_bytes ∷ [];
      })
      chunks

abbrev pub before_chunks : Iteration
before_chunks = record { first_token_us = none; token_hint_total = 0; sent = [] }

-- The `record_stream` in its `finally`
unfoldable pub finish_stream : SloMetrics → Iteration → SloMetrics
unfolding record_stream
finish_stream metrics i =
    record_stream metrics
      (record { ttft_us = i.first_token_us; token_count_hint = pos i.token_hint_total })

sum_hints : List StreamChunk → ℕ
sum_hints [] = 0
sum_hints (chunk ∷ chunks) = chunk.token_count_hint + sum_hints chunks

-- What a loop adds to what it began with.
iterate_lem :
    (i : Iteration) (timed : List (ℕ × StreamChunk))
    → let chunks = map (λ c. c.1) timed in
      ((iterate i timed).sent ≡ i.sent ++ map (λ c. c.data_bytes) chunks)
      × ((iterate i timed).token_hint_total ≡ i.token_hint_total + sum_hints chunks)
unfolding iterate sum_hints
iterate_lem i [] = (sym (append-nil i.sent), omega arith)
iterate_lem i ((elapsed, chunk) ∷ timed) =
    let next : Iteration = record {
      first_token_us = first_time chunk.is_first_token i.first_token_us elapsed;
      token_hint_total = i.token_hint_total + chunk.token_count_hint;
      sent = i.sent ++ chunk.data_bytes ∷ [];
    } in
    let (sent, hints) = iterate_lem next timed in
    (
      sent
          ∙ append_assoc i.sent (chunk.data_bytes ∷ [])
              (map (λ c. c.data_bytes) (map (λ c. c.1) timed)),
      omega (arith, hints),
    )

data_bytes-chunks_from :
    (first : Bool) (read : List Text)
    → map (λ c. c.data_bytes) (chunks_from first read) ≡ filter (λ s. not (is_empty s)) read
unfolding chunks_from
data_bytes-chunks_from first [] = refl
data_bytes-chunks_from first ([] ∷ later) = data_bytes-chunks_from first later
data_bytes-chunks_from first ((c ∷ s) ∷ later) = rw (data_bytes-chunks_from false later) refl

sum_hints-later : (read : List Text) → sum_hints (chunks_from false read) ≡ 0
unfolding chunks_from sum_hints
sum_hints-later [] = refl
sum_hints-later ([] ∷ later) = sum_hints-later later
sum_hints-later ((c ∷ s) ∷ later) = omega (arith, sum_hints-later later)

sum_hints-chunks :
    (read : List Text)
    → sum_hints (real_chunks read) ≡ (if any (λ s. not (is_empty s)) read then 1 else 0)
unfolding real_chunks chunks_from sum_hints
sum_hints-chunks [] = refl
sum_hints-chunks ([] ∷ later) = sum_hints-chunks later
sum_hints-chunks ((c ∷ s) ∷ later) = omega (arith, sum_hints-later later)

-- Of a stream of the upstream, read to its end at whatever times: the client is sent the reads that are
-- not empty, unchanged and in order, and the token hints count one in all if there is one.
iterate-real_chunks :
    (read : List Text) (timed : List (ℕ × StreamChunk))
    → map (λ c. c.1) timed ≡ real_chunks read
    → ((iterate before_chunks timed).sent ≡ filter (λ s. not (is_empty s)) read)
      × ((iterate before_chunks timed).token_hint_total
          ≡ (if any (λ s. not (is_empty s)) read then 1 else 0))
unfolding real_chunks
iterate-real_chunks read timed real =
    let (sent, hints) = iterate_lem before_chunks timed in
    (
      sent ∙ ap (map (λ c. c.data_bytes)) real ∙ data_bytes-chunks_from true read,
      omega (arith, hints, ap sum_hints real, sum_hints-chunks read),
    )
