-- ===== src/Proxy/Tests.antt =====
-- A stream of three reads, of which one is empty.
use saa_s_governance_layer_r.Common.{
  ℕ, ◌≡◌, refl, List, [], ◌∷◌, some, codes, text_eq, text_beq, map, lower,
}
use saa_s_governance_layer_r.Metrics.{no_metrics, record_stream}
use saa_s_governance_layer_r.Proxy.{
  StreamChunk, real_chunks, chunks_from, iterate, before_chunks, finish_stream, mock_chunks,
  visible_mock_headers,
}

abbrev timed : List StreamChunk → List (ℕ × StreamChunk)
timed chunks = map (λ c. (700, c)) chunks

proxy_tests :
    ((iterate before_chunks (timed (real_chunks (codes "a" ∷ [] ∷ codes "b" ∷ [])))).sent
      ≡ codes "a" ∷ codes "b" ∷ [])
    × ((iterate before_chunks (timed (mock_chunks (codes "x") (codes "y")))).first_token_us
        ≡ some 700)
    × ((finish_stream no_metrics (
          iterate before_chunks
            (timed (real_chunks (codes "a" ∷ codes "b" ∷ []))))).stream_completion_token_hints
        ≡ 1)
    × (visible_mock_headers ((codes "User", codes "u") ∷ (codes "authorization", codes "s") ∷ [])
        ≡ (codes "User", codes "u") ∷ [])
unfolding iterate real_chunks chunks_from mock_chunks finish_stream record_stream
    visible_mock_headers lower text_beq
proxy_tests = (refl, refl, refl, refl)
