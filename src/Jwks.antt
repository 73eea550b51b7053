-- ===== src/Jwks.antt =====
-- jwks_cache.py: the cache of JWKS clients. A client is told by its URL and the time it was made, so
-- PyJWKClient itself has no part here. Times are in seconds.
mod Tests
use saa_s_governance_layer_r.Common.{
  ℕ, ◌+◌, ◌≤◌, ◌<◌, ◌≡◌, refl, sym, ap, ◌∙◌, subst, if-true, if-false, nat_beq_iff, ◌⊎◌, inl, inr,
  Bool, true, false, List, [], ◌∷◌, Option, none, some, Text, codes, text_eq, text_beq, ◌==◌,
  ==_iff, Dict, lookup, lookup-insert, lookup-nil, insert, nat_beq, leb, ltb, if◌then◌else◌, arith,
  Bool-cases, Option-cases, some_unique,
}

pub record JwksClient : Type 0 where
  pub jwks_url : Text
  pub created_at : ℕ

-- `_CachedJwksClient`
pub record CachedJwksClient : Type 0 where
  pub client : JwksClient
  pub expires_at : ℕ

pub record JwksClientCache : Type 0 where
  pub ttl_seconds : ℕ
  pub clients : Dict Text CachedJwksClient

abbrev pub new_cache : ℕ → JwksClientCache
new_cache ttl = record { ttl_seconds = ttl; clients = [] }

-- The miss: a new client, kept for its time to live.
unfoldable pub renew : JwksClientCache → Text → ℕ → JwksClientCache × JwksClient
renew cache url now =
    let client : JwksClient = record { jwks_url = url; created_at = now } in
    (
      record cache {
        clients =
            insert url (record { client = client; expires_at = now + cache.ttl_seconds })
              cache.clients;
      },
      client,
    )

-- `JwksClientCache.get`
unfoldable pub get_client : JwksClientCache → Text → ℕ → JwksClientCache × JwksClient
unfolding renew
get_client cache url now = elim (lookup url cache.clients) [
  | none ↦ renew cache url now
  | some cached ↦ if ltb now cached.expires_at then (cache, cached.client) else renew cache url now
]

-- `clear`
unfoldable pub clear : JwksClientCache → JwksClientCache
clear cache = record cache { clients = [] }

-- `get_jwks_client` on the global cache; another time to live begins a new one.
unfoldable pub get_jwks_client :
    JwksClientCache → Text → (ttl_seconds now : ℕ) → JwksClientCache × JwksClient
unfolding get_client
get_jwks_client cache url ttl now =
    if nat_beq cache.ttl_seconds ttl
    then get_client cache url now
    else get_client (new_cache ttl) url now

-- Every client is kept under its own URL, until its time to live has passed.
abbrev pub IsSound : JwksClientCache → Type 0
IsSound cache =
    (url : Text) (cached : CachedJwksClient)
    → lookup url cache.clients ≡ some cached
    → (cached.client.jwks_url ≡ url)
      × (cached.expires_at ≡ cached.client.created_at + cache.ttl_seconds)

-- A client of a URL that is younger than the time to live, or was made just now.
abbrev pub IsFresh : Text → (ttl now : ℕ) → JwksClient → Type 0
IsFresh url ttl now client =
    (client.jwks_url ≡ url) × ((now < client.created_at + ttl) ⊎ (client.created_at ≡ now))

new_cache-IsSound : (ttl : ℕ) → IsSound (new_cache ttl)
new_cache-IsSound ttl url cached h = cc (h, lookup-nil {V = CachedJwksClient} url)

renew-IsSound :
    (cache : JwksClientCache) (url : Text) (now : ℕ)
    → IsSound cache
    → IsSound (renew cache url now).0
unfolding renew
renew-IsSound cache url now sound u cached h =
    let entry : CachedJwksClient = record {
      client = record { jwks_url = url; created_at = now };
      expires_at = now + cache.ttl_seconds;
    } in
    let read = lookup-insert url u entry cache.clients in
    elim (Bool-cases (url == u)) [
      | inl same ↦
          subst
            (λ c.
              (c.client.jwks_url ≡ u) × (c.expires_at ≡ c.client.created_at + cache.ttl_seconds))
            (some_unique (read ∙ if-true _ same) h) ((==_iff url u).0 same, refl)
      | inr other ↦ sound u cached (sym (read ∙ if-false _ other) ∙ h)
    ]

get_client-IsSound :
    (cache : JwksClientCache) (url : Text) (now : ℕ)
    → IsSound cache
    → let result = get_client cache url now in
      IsSound result.0
      × IsFresh url cache.ttl_seconds now result.1
      × (result.0.ttl_seconds ≡ cache.ttl_seconds)
unfolding get_client
get_client-IsSound cache url now sound =
    let made = renew-IsSound cache url now sound in
    elim (Option-cases (lookup url cache.clients)) [
      | inl miss ↦ rw (miss, get_client) (made, (refl, inr refl), refl)
      | inr (cached, hit) ↦
          let (own, until) = sound url cached hit in
          elim (Bool-cases (ltb now cached.expires_at)) [
            | inl young ↦
                rw (hit, young, get_client) (sound, (own, inl (ground (arith, until))), refl)
            | inr old ↦ rw (hit, old, get_client) (made, (refl, inr refl), refl)
          ]
    ]

get_jwks_client-IsSound :
    (cache : JwksClientCache) (url : Text) (ttl now : ℕ)
    → IsSound cache
    → IsSound (get_jwks_client cache url ttl now).0
      × IsFresh url ttl now (get_jwks_client cache url ttl now).1
unfolding get_jwks_client
get_jwks_client-IsSound cache url ttl now sound =
    elim (Bool-cases (nat_beq cache.ttl_seconds ttl)) [
      | inl same ↦
          let (kept, fresh, size) = get_client-IsSound cache url now sound in
          rw (same, get_jwks_client)
            (
              kept,
              subst (λ x. IsFresh url x now (get_client cache url now).1) ((nat_beq_iff _ _).0 same)
                  fresh,
            )
      | inr other ↦
          let (kept, fresh, size) =
            get_client-IsSound (new_cache ttl) url now (new_cache-IsSound ttl) in
          rw (other, get_jwks_client) (kept, fresh)
    ]

-- A call of `get_jwks_client`, or of `clear`.
pub data Call : Type 0 where
  get : (jwks_url : Text) → (ttl_seconds now : ℕ) → Call
  clear_all : Call

unfoldable pub run : JwksClientCache → List Call → JwksClientCache
unfolding get_jwks_client clear
run cache [] = cache
run cache (get url ttl now ∷ calls) = run (get_jwks_client cache url ttl now).0 calls
run cache (clear_all ∷ calls) = run (clear cache) calls

run-IsSound :
    (cache : JwksClientCache) (calls : List Call) → IsSound cache → IsSound (run cache calls)
unfolding run clear
run-IsSound cache [] sound = sound
run-IsSound cache (get url ttl now ∷ calls) sound =
    run-IsSound (get_jwks_client cache url ttl now).0 calls
      (get_jwks_client-IsSound cache url ttl now sound).0
run-IsSound cache (clear_all ∷ calls) sound =
    run-IsSound (clear cache) calls (λ u cached h. cc (h, lookup-nil {V = CachedJwksClient} u))

-- After any calls, with any times to live and any readings of the clock, the client that is handed out is
-- one of the URL that was asked for, and it was made just now or has not lived as long as the call's
-- own time to live.
pub get_jwks_client-IsFresh :
    (first_ttl : ℕ) (calls : List Call) (url : Text) (ttl now : ℕ)
    → IsFresh url ttl now (get_jwks_client (run (new_cache first_ttl) calls) url ttl now).1
get_jwks_client-IsFresh first_ttl calls url ttl now =
    (get_jwks_client-IsSound (run (new_cache first_ttl) calls) url ttl now
      (run-IsSound (new_cache first_ttl) calls (new_cache-IsSound first_ttl))).1
