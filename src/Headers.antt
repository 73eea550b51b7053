-- ===== src/Headers.antt =====
-- header_sanitizer.py, and the outbound headers that main.py builds from it. Incoming headers are
-- the pairs of `headers.items()`, in order; outgoing ones are a dictionary.
pub mod Trust
mod Tests
use saa_s_governance_layer_r.Common.{
  Bool, true, false, ◌||◌, List, [], ◌∷◌, ◌++◌, Option, none, some, Text, codes, lower, contains,
  text_eq, if◌then◌else◌, Dict, lookup, insert, any, nat_beq,
}
use saa_s_governance_layer_r.Registry.{TenantConfig}

abbrev pub client_supplied_routing_headers : List Text
client_supplied_routing_headers =
    codes "x-tenant-id"
    ∷ codes "x-user-id"
    ∷ codes "x-tier"
    ∷ codes "user"
    ∷ codes "external-filter"
    ∷ codes "config-profile"
    ∷ codes "x-internal-tenant-id"
    ∷ codes "x-internal-user-id"
    ∷ codes "x-internal-slo-tier"
    ∷ []

abbrev pub hop_by_hop_or_sensitive_headers : List Text
hop_by_hop_or_sensitive_headers =
    codes "authorization"
    ∷ codes "connection"
    ∷ codes "keep-alive"
    ∷ codes "proxy-authenticate"
    ∷ codes "proxy-authorization"
    ∷ codes "te"
    ∷ codes "trailer"
    ∷ codes "transfer-encoding"
    ∷ codes "upgrade"
    ∷ codes "host"
    ∷ codes "content-length"
    ∷ []

-- `key.lower() in CLIENT_SUPPLIED_ROUTING_HEADERS | HOP_BY_HOP_OR_SENSITIVE_HEADERS`
unfoldable pub is_blocked : Text → Bool
is_blocked key =
    contains client_supplied_routing_headers (lower key)
    || contains hop_by_hop_or_sensitive_headers (lower key)

sanitize_from : Dict Text Text → List (Text × Text) → Dict Text Text
sanitize_from sanitized [] = sanitized
sanitize_from sanitized ((key, value) ∷ headers) =
    sanitize_from (if is_blocked key then sanitized else insert key value sanitized) headers

unfoldable pub sanitize_inbound_headers : List (Text × Text) → Dict Text Text
unfolding sanitize_from
sanitize_inbound_headers headers = sanitize_from [] headers

unfoldable pub routing_headers_were_supplied : List (Text × Text) → Bool
routing_headers_were_supplied headers =
    any (λ h. contains client_supplied_routing_headers (lower h.0)) headers

unfoldable pub inject_trusted_headers :
    (headers : Dict Text Text)
    → (tenant_id user_id user_header_value external_filter config_profile : Text) → Dict Text Text
inject_trusted_headers headers tenant_id user_id user_header_value external_filter config_profile =
    insert (codes "x-internal-user-id") user_id (
      insert (codes "x-internal-tenant-id") tenant_id (
        insert (codes "config-profile") config_profile (
          insert (codes "external-filter") external_filter
            (insert (codes "user") user_header_value headers))))

-- `str.format` with named fields. A field name is looked up whole, so conversions, format
-- specifications and attribute access are outside the model and fail here.
pub data FormatMode : Type 0 where
  plain opened closed : FormatMode
  field : Text → FormatMode

abbrev prefix : Text → Option Text → Option Text
prefix s none = none
prefix s (some t) = some (s ++ t)

abbrev field_value : Option Text → Option Text → Option Text
field_value none t = none
field_value (some v) t = prefix v t

format_from : Dict Text Text → FormatMode → Text → Option Text
format_from args plain [] = some []
format_from args opened [] = none
format_from args closed [] = none
format_from args (field name) [] = none
format_from args plain (c ∷ s) =
    let on_open = format_from args opened s in
    let on_close = format_from args closed s in
    let other = prefix (c ∷ []) (format_from args plain s) in
    if nat_beq c b'{' then on_open else if nat_beq c b'}' then on_close else other
format_from args opened (c ∷ s) =
    let literal = prefix (c ∷ []) (format_from args plain s) in
    let named = format_from args (field (c ∷ [])) s in
    if nat_beq c b'{' then literal else if nat_beq c b'}' then none else named
format_from args closed (c ∷ s) =
    let literal = prefix (c ∷ []) (format_from args plain s) in
    if nat_beq c b'}' then literal else none
format_from args (field name) (c ∷ s) =
    let value = field_value (lookup name args) (format_from args plain s) in
    let longer = format_from args (field (name ++ c ∷ [])) s in
    if nat_beq c b'}' then value else if nat_beq c b'{' then none else longer

-- `template.format(**args)`; `none` is the exception that it raises.
unfoldable pub format : Text → Dict Text Text → Option Text
unfolding format_from
format template args = format_from args plain template

abbrev pub bool_text : Bool → Text
bool_text true = codes "true"
bool_text false = codes "false"

abbrev pub user_args : Text → Text → Dict Text Text
user_args tenant_id user_id = (codes "tenant_id", tenant_id) ∷ (codes "user_id", user_id) ∷ []

abbrev pub filter_args : Text → Dict Text Text
filter_args tenant_id = (codes "tenant_id", tenant_id) ∷ []

-- The last lines of `_build_outbound_headers`, once the templates are filled in.
unfoldable pub outbound_headers :
    List (Text × Text)
    → TenantConfig
    → (tenant_id user_id request_id user filter : Text) → Dict Text Text
outbound_headers headers tenant tenant_id user_id request_id user filter =
    insert (codes "x-internal-runtime-isolation-mode") tenant.runtime_isolation.mode (
      insert (codes "x-internal-kv-cache-isolation-required")
        (bool_text tenant.runtime_isolation.kv_cache_isolation_required)
        (insert (codes "x-request-id") request_id (
          inject_trusted_headers (sanitize_inbound_headers headers) tenant_id user_id user filter
            tenant.config_profile)))

-- `_build_outbound_headers`; `none` when a template does not format.
unfoldable pub build_outbound_headers :
    List (Text × Text)
    → TenantConfig
    → (tenant_id user_id request_id : Text) → Option (Dict Text Text)
build_outbound_headers headers tenant tenant_id user_id request_id =
    elim (format tenant.user_header_template (user_args tenant_id user_id)) [
      | none ↦ none
      | some user ↦ elim (format tenant.routing_external_filter (filter_args tenant_id)) [
        | none ↦ none
        | some filter ↦
            some (outbound_headers headers tenant tenant_id user_id request_id user filter)
      ]
    ]
