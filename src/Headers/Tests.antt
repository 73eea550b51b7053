-- ===== src/Headers/Tests.antt =====
-- The outbound headers of a sample request that tries to spoof its routing.
use saa_s_governance_layer_r.Common.{
  ◌≡◌, refl, inl, true, List, [], ◌∷◌, none, some, Text, codes, text_beq, text_eq, lower, lookup,
  insert, Dict, if◌then◌else◌, contains, ◌||◌,
}
use saa_s_governance_layer_r.Examples.{tenant_a}
use saa_s_governance_layer_r.Headers.{
  client_supplied_routing_headers, hop_by_hop_or_sensitive_headers, is_blocked,
  sanitize_inbound_headers, inject_trusted_headers, format, user_args, filter_args,
  outbound_headers, build_outbound_headers, routing_headers_were_supplied,
}
use saa_s_governance_layer_r.Headers.Trust.{
  to_dict, trusted_headers, lookup-sanitize_inbound_headers, build_outbound_headers-trusted,
}

sending : Unit {0}
unfolding build_outbound_headers outbound_headers inject_trusted_headers sanitize_inbound_headers
    format is_blocked lower text_beq lookup insert to_dict routing_headers_were_supplied
sending = tt

abbrev spoofed : List (Text × Text)
spoofed =
    (codes "X-Tenant-Id", codes "tenant-b")
    ∷ (codes "USER", codes "root")
    ∷ (codes "accept", codes "*/*")
    ∷ (codes "Authorization", codes "Bearer t")
    ∷ []

abbrev sent : Dict Text Text
sent =
    (codes "accept", codes "*/*")
    ∷ (codes "user", codes "tenant-a:ann")
    ∷ (codes "external-filter", codes "tenant=tenant-a")
    ∷ (codes "config-profile", codes "standard")
    ∷ (codes "x-internal-tenant-id", codes "tenant-a")
    ∷ (codes "x-internal-user-id", codes "ann")
    ∷ (codes "x-request-id", codes "r1")
    ∷ (codes "x-internal-kv-cache-isolation-required", codes "false")
    ∷ (codes "x-internal-runtime-isolation-mode", codes "shared_pool")
    ∷ []

build_sent :
    build_outbound_headers spoofed tenant_a (codes "tenant-a") (codes "ann") (codes "r1")
    ≡ some sent
unfolding sending
build_sent = refl

format_tests :
    (format (codes "{{{user_id}}}") (user_args (codes "t") (codes "u")) ≡ some (codes "{u}"))
    × (format (codes "{tier}") (user_args (codes "t") (codes "u")) ≡ none)
    × (format (codes "a}b") (filter_args (codes "t")) ≡ none)
unfolding sending
format_tests = (refl, refl, refl)

supplied : routing_headers_were_supplied spoofed ≡ true
unfolding sending
supplied = refl

lookup-sanitize_inbound_headers_example :
    lookup (codes "user") (sanitize_inbound_headers spoofed) ≡ (
      if contains client_supplied_routing_headers (lower (codes "user"))
        || contains hop_by_hop_or_sensitive_headers (lower (codes "user"))
      then none
      else lookup (codes "user") (to_dict [] spoofed))
lookup-sanitize_inbound_headers_example = lookup-sanitize_inbound_headers (codes "user") spoofed

build_outbound_headers-trusted_example :
    (user : Text) × (filter : Text) × (format tenant_a.user_header_template
        (user_args (codes "tenant-a") (codes "ann"))
      ≡ some user)
    × (format tenant_a.routing_external_filter (filter_args (codes "tenant-a")) ≡ some filter)
    × (lookup (codes "User") sent
        ≡ lookup
            (codes "User")
            (trusted_headers (codes "tenant-a") (codes "ann") user filter tenant_a.config_profile))
unfolding sending
build_outbound_headers-trusted_example =
    build_outbound_headers-trusted spoofed tenant_a (codes "tenant-a") (codes "ann") (codes "r1")
      (codes "User") sent build_sent (inl refl)
