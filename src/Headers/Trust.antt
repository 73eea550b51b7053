-- ===== src/Headers/Trust.antt =====
-- The routing, identity and hop-by-hop headers of the outbound request.
use saa_s_governance_layer_r.Common.{
  ◌≡◌, refl, true, false, List, [], ◌∷◌, none, some, Text, codes, text_eq, text_beq, ◌==◌, ==_iff,
  if◌then◌else◌, Dict, lookup, insert, lookup-insert, arith, Bool-cases, Option-cases, inl, inr,
  ◌⊎◌, ◌||◌, contains, lower,
}
use saa_s_governance_layer_r.Registry.{TenantConfig}
use saa_s_governance_layer_r.Headers.{
  client_supplied_routing_headers, hop_by_hop_or_sensitive_headers, is_blocked, sanitize_from,
  sanitize_inbound_headers, inject_trusted_headers, outbound_headers, build_outbound_headers,
  format, user_args, filter_args,
}

-- `dict(headers.items())`: the last value of a repeated key wins.
unfoldable pub to_dict : Dict Text Text → List (Text × Text) → Dict Text Text
to_dict d [] = d
to_dict d ((key, value) ∷ headers) = to_dict (insert key value d) headers

sanitize_from-blocked :
    (k : Text) (d : Dict Text Text) (hs : List (Text × Text))
    → is_blocked k ≡ true
    → lookup k (sanitize_from d hs) ≡ lookup k d
unfolding sanitize_from
sanitize_from-blocked k d [] b = refl
sanitize_from-blocked k d ((key, value) ∷ hs) b = elim (Bool-cases (is_blocked key)) [
  | inl dropped ↦ rw dropped (sanitize_from-blocked k d hs b)
  | inr kept ↦ rw kept (
      ground (
        arith,
        sanitize_from-blocked k (insert key value d) hs b,
        lookup-insert key k value d,
        ==_iff key k,
      ))
]

sanitize_from-passes :
    (k : Text) (d e : Dict Text Text) (hs : List (Text × Text))
    → is_blocked k ≡ false
    → lookup k d ≡ lookup k e
    → lookup k (sanitize_from d hs) ≡ lookup k (to_dict e hs)
unfolding sanitize_from to_dict
sanitize_from-passes k d e [] b h = h
sanitize_from-passes k d e ((key, value) ∷ hs) b h = elim (Bool-cases (is_blocked key)) [
  | inl dropped ↦ rw dropped (
      sanitize_from-passes k d (insert key value e) hs b
        (ground (arith, lookup-insert key k value e, ==_iff key k)))
  | inr kept ↦ rw kept (
      sanitize_from-passes k (insert key value d) (insert key value e) hs b
        (ground (arith, lookup-insert key k value e, lookup-insert key k value d)))
]

lookup_sanitized :
    (k : Text) (hs : List (Text × Text))
    → lookup k (sanitize_inbound_headers hs)
      ≡ (if is_blocked k then none else lookup k (to_dict [] hs))
unfolding sanitize_inbound_headers lookup
lookup_sanitized k hs = elim (Bool-cases (is_blocked k)) [
  | inl b ↦ rw b (sanitize_from-blocked k [] hs b)
  | inr b ↦ rw b (sanitize_from-passes k [] [] hs b refl)
]

-- Sanitised headers hold no key that is in lower case one of the routing, identity or hop-by-hop
-- headers, and for every other key what the incoming headers hold last.
pub lookup-sanitize_inbound_headers :
    (k : Text) (hs : List (Text × Text))
    → lookup k (sanitize_inbound_headers hs) ≡ (
        if contains client_supplied_routing_headers (lower k)
          || contains hop_by_hop_or_sensitive_headers (lower k)
        then none
        else lookup k (to_dict [] hs))
unfolding is_blocked
lookup-sanitize_inbound_headers k hs = lookup_sanitized k hs

-- The policy's values for the routing headers.
abbrev pub trusted_headers : (tenant_id user_id user filter profile : Text) → Dict Text Text
trusted_headers tenant_id user_id user filter profile =
    (codes "x-internal-user-id", user_id)
    ∷ (codes "x-internal-tenant-id", tenant_id)
    ∷ (codes "config-profile", profile)
    ∷ (codes "external-filter", filter)
    ∷ (codes "user", user)
    ∷ []

not-blocked : (name k : Text) → is_blocked name ≡ false → is_blocked k ≡ true → (name == k) ≡ false
not-blocked name k passes b = elim (Bool-cases (name == k)) [
  | inr other ↦ other
  | inl same ↦ cc (passes, b, (==_iff name k).0 same)
]

inject-blocked :
    (k tid uid user filter profile : Text) (hs : List (Text × Text))
    → is_blocked k ≡ true
    → lookup k (inject_trusted_headers (sanitize_inbound_headers hs) tid uid user filter profile)
      ≡ lookup k (trusted_headers tid uid user filter profile)
unfolding inject_trusted_headers lookup
inject-blocked k tid uid user filter profile hs b = simp (lookup-insert, lookup_sanitized, b)

outbound-blocked :
    (k tid uid rid user filter : Text) (t : TenantConfig) (hs : List (Text × Text))
    → is_blocked k ≡ true
    → lookup k (outbound_headers hs t tid uid rid user filter)
      ≡ lookup k (trusted_headers tid uid user filter t.config_profile)
unfolding outbound_headers
outbound-blocked k tid uid rid user filter t hs b =
    simp
      (
        lookup-insert,
        not-blocked (codes "x-internal-runtime-isolation-mode") k (mode_passes) b,
        not-blocked (codes "x-internal-kv-cache-isolation-required") k (cache_passes) b,
        not-blocked (codes "x-request-id") k (request_passes) b,
      )
      (inject-blocked k tid uid user filter t.config_profile hs b)
  where
    mode_passes : is_blocked (codes "x-internal-runtime-isolation-mode") ≡ false
    mode_passes = unfold is_blocked lower text_beq in refl

    cache_passes : is_blocked (codes "x-internal-kv-cache-isolation-required") ≡ false
    cache_passes = unfold is_blocked lower text_beq in refl

    request_passes : is_blocked (codes "x-request-id") ≡ false
    request_passes = unfold is_blocked lower text_beq in refl

-- A routing, identity or hop-by-hop header, in any spelling of its case.
abbrev pub IsProtected : Text → Type 0
IsProtected k =
    (contains client_supplied_routing_headers (lower k) ≡ true)
    ⊎ (contains hop_by_hop_or_sensitive_headers (lower k) ≡ true)

IsProtected-blocked : (k : Text) → IsProtected k → is_blocked k ≡ true
unfolding is_blocked
IsProtected-blocked k p = ground arith

-- Whatever headers a client sends, each routing, identity or hop-by-hop header of the outbound
-- request, in any spelling of its case, has the value that the tenant's policy gives it, formatted
-- from the tenant's own templates of plain fields, or is absent.
pub build_outbound_headers-trusted :
    (hs : List (Text × Text)) (t : TenantConfig) (tid uid rid k : Text) (out : Dict Text Text)
    → build_outbound_headers hs t tid uid rid ≡ some out
    → IsProtected k
    → (user : Text) × (filter : Text) × (format t.user_header_template (user_args tid uid)
        ≡ some user)
      × (format t.routing_external_filter (filter_args tid) ≡ some filter)
      × (lookup k out ≡ lookup k (trusted_headers tid uid user filter t.config_profile))
unfolding build_outbound_headers
build_outbound_headers-trusted hs t tid uid rid k out h protected =
    let b = IsProtected-blocked k protected in
    elim (Option-cases (format t.user_header_template (user_args tid uid))) [
      | inl failed ↦ cc (rw (failed, build_outbound_headers) at h)
      | inr (user, made) ↦
          elim (Option-cases (format t.routing_external_filter (filter_args tid))) [
            | inl failed ↦ cc (rw (made, failed, build_outbound_headers) at h)
            | inr (filter, also) ↦
                let whole : outbound_headers hs t tid uid rid user filter ≡ out = ground arith in
                (
                  user,
                  filter,
                  made,
                  also,
                  rw (← whole) (outbound-blocked k tid uid rid user filter t hs b),
                )
          ]
    ]
