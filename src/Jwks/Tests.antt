-- ===== src/Jwks/Tests.antt =====
-- A client is kept for its time to live.
use saa_s_governance_layer_r.Common.{
  ◌≡◌, refl, List, [], ◌∷◌, Text, codes, text_eq, text_beq, lookup, insert,
}
use saa_s_governance_layer_r.Jwks.{
  Call, get, clear_all, new_cache, renew, get_client, clear, get_jwks_client, run, IsFresh,
  get_jwks_client-IsFresh,
}

abbrev url_a : Text
url_a = codes "https://a/jwks"

abbrev some_calls : List Call
some_calls = get url_a 300 1000 ∷ get url_a 300 1200 ∷ clear_all ∷ get url_a 60 1250 ∷ []

jwks_tests :
    ((get_jwks_client (run (new_cache 300) some_calls) url_a 60 1300).1.created_at ≡ 1250)
    × ((get_jwks_client (run (new_cache 300) some_calls) url_a 60 1310).1.created_at ≡ 1310)
    × ((get_jwks_client (run (new_cache 300) some_calls) url_a 300 1300).1.created_at ≡ 1300)
unfolding run get_jwks_client get_client renew clear lookup insert text_beq
jwks_tests = (refl, refl, refl)

get_jwks_client-IsFresh_example :
    IsFresh url_a 60 1300 (get_jwks_client (run (new_cache 300) some_calls) url_a 60 1300).1
get_jwks_client-IsFresh_example = get_jwks_client-IsFresh 300 some_calls url_a 60 1300
