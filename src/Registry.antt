-- ===== src/Registry.antt =====
-- tenant_registry.py: the tenant documents with their validators, the registry that `load` builds
-- from them, and the lookup of a tenant by the Host header. Reading the file and its YAML syntax is
-- left out: a file arrives as parsed values, or as one of two failures.
pub mod Resolve
pub mod Load
pub mod Complete
mod Tests
use saa_s_governance_layer_r.Common.{
  ℕ, Bool, true, false, not, ◌&&◌, ◌||◌, List, [], ◌∷◌, Option, none, some, Text, codes, strip,
  lower, contains, text_eq, is_empty, Result, ok, err, ◌>>=◌, ◌>>◌, guard, leb, nat_beq,
  if◌then◌else◌, Dict, lookup, insert, has, count, split, map, filter,
}
use saa_s_governance_layer_r.Settings.{is_given}

pub record TenantLimits : Type 0 where
  pub requests_per_minute : Option ℕ
  pub input_tokens_per_minute : Option ℕ
  pub output_tokens_per_minute : Option ℕ
  pub concurrent_requests : Option ℕ

pub record ModelPolicy : Type 0 where
  pub allowed_lora_adapters : List Text

pub record AdapterArtifactPolicy : Type 0 where
  pub artifact_uri : Text
  pub sha256 : Text
  pub signed_by : Option Text
  pub status : Text
  pub compatible_models : List Text

pub record RuntimeIsolationPolicy : Type 0 where
  pub mode : Text
  pub kv_cache_isolation_required : Bool
  pub kv_cache_isolation_proven : Bool
  pub evidence : Option Text

pub record TenantConfig : Type 0 where
  pub tenant_id : Text
  pub domains : List Text
  pub oidc_issuer : Text
  pub oidc_audience : Text
  pub oidc_jwks_url : Option Text
  pub tenant_claim : Text
  pub user_claim : Text
  pub routing_external_filter : Text
  pub config_profile : Text
  pub user_header_template : Text
  pub limits : TenantLimits
  pub runtime_isolation : RuntimeIsolationPolicy
  pub adapter_artifacts : Dict Text AdapterArtifactPolicy
  pub allowed_models : Dict Text ModelPolicy

pub record TenantRegistry : Type 0 where
  pub tenants_by_id : Dict Text TenantConfig
  pub tenants_by_domain : Dict Text TenantConfig

pub data RegistryLoadError : Type 0 where
  missing_file invalid_document : RegistryLoadError
  duplicate_tenant_id : Text → RegistryLoadError
  domain_maps_to_multiple_tenants : Text → Text → Text → RegistryLoadError

-- What `load` raises: its own error, or the UnicodeDecodeError of a file that is not UTF-8, which is
-- none of the exceptions that its `except` names.
pub data LoadFailure : Type 0 where
  registry_load_error : RegistryLoadError → LoadFailure
  unicode_decode_error : LoadFailure

-- The file of the registry: one that is not UTF-8, one that cannot be read or is no YAML document of
-- the right shape, or the tenants' documents that it holds.
pub data RegistryFile : Type 0 where
  not_utf8 unreadable : RegistryFile
  parsed : List TenantConfig → RegistryFile

abbrev at_least_one : Option ℕ → Bool
at_least_one none = true
at_least_one (some n) = leb 1 n

-- `Field(default=None, ge=1)` on every limit
unfoldable pub validate_limits : TenantLimits → Bool
validate_limits l =
    at_least_one l.requests_per_minute
    && at_least_one l.input_tokens_per_minute
    && at_least_one l.output_tokens_per_minute
    && at_least_one l.concurrent_requests

abbrev pub adapter_statuses : List Text
adapter_statuses = codes "active" ∷ codes "deprecated" ∷ codes "quarantined" ∷ []

unfoldable pub validate_status : AdapterArtifactPolicy → Option AdapterArtifactPolicy
validate_status p =
    let normalized = lower (strip p.status) in
    if contains adapter_statuses normalized then some (record p { status = normalized }) else none

unfoldable pub require_evidence_when_proven : RuntimeIsolationPolicy → Bool
require_evidence_when_proven p = not (p.kv_cache_isolation_proven && not (is_given p.evidence))

unfoldable pub lower_domains : List Text → Option (List Text)
lower_domains values =
    let cleaned = map (λ v. lower (strip v)) (filter (λ v. not (is_empty (strip v))) values) in
    if is_empty cleaned then none else some cleaned

unfoldable pub validate_artifacts :
    Dict Text AdapterArtifactPolicy → Option (Dict Text AdapterArtifactPolicy)
validate_artifacts [] = some []
validate_artifacts ((name, p) ∷ d) = elim (validate_status p) [
  | none ↦ none
  | some q ↦ elim (validate_artifacts d) [ none ↦ none | some r ↦ some ((name, q) ∷ r) ]
]

-- The validators of one `TenantConfig` and of what it holds.
unfoldable pub validate_tenant : TenantConfig → Option TenantConfig
validate_tenant t = elim (lower_domains t.domains) [
  | none ↦ none
  | some ds ↦ elim (validate_artifacts t.adapter_artifacts) [
    | none ↦ none
    | some arts ↦
        if validate_limits t.limits
          && require_evidence_when_proven t.runtime_isolation
          && not (is_empty t.allowed_models)
        then some (record t { domains = ds; adapter_artifacts = arts })
        else none
  ]
]

unfoldable pub validate_document : List TenantConfig → Option (List TenantConfig)
validate_document [] = some []
validate_document (t ∷ ts) = elim (validate_tenant t) [
  | none ↦ none
  | some v ↦ elim (validate_document ts) [ none ↦ none | some vs ↦ some (v ∷ vs) ]
]

-- The inner loop of `load`: one tenant's domains.
unfoldable pub add_domains :
    TenantConfig
    → List Text
    → Dict Text TenantConfig
    → Result RegistryLoadError (Dict Text TenantConfig)
add_domains t [] by_domain = ok by_domain
add_domains t (d ∷ ds) by_domain = elim (lookup d by_domain) [
  | some owner ↦ err (domain_maps_to_multiple_tenants d owner.tenant_id t.tenant_id)
  | none ↦ add_domains t ds (insert d t by_domain)
]

-- The outer loop of `load`.
unfoldable pub add_tenants :
    List TenantConfig → TenantRegistry → Result RegistryLoadError TenantRegistry
add_tenants [] r = ok r
add_tenants (t ∷ ts) r = elim (has t.tenant_id r.tenants_by_id) [
  | true ↦ err (duplicate_tenant_id t.tenant_id)
  | false ↦ elim (add_domains t t.domains r.tenants_by_domain) [
    | err e ↦ err e
    | ok by_domain ↦ add_tenants ts (record {
      tenants_by_id = insert t.tenant_id t r.tenants_by_id;
      tenants_by_domain = by_domain;
    })
  ]
]

-- Reading and validating the file, with the exceptions that `load` turns into its own.
unfoldable pub read_document : RegistryFile → Result LoadFailure (List TenantConfig)
read_document not_utf8 = err unicode_decode_error
read_document unreadable = err (registry_load_error invalid_document)
read_document (parsed raw) = elim (validate_document raw) [
  | none ↦ err (registry_load_error invalid_document)
  | some document ↦ ok document
]

abbrev pub as_failure {ℓ} : {A : Type ℓ} → Result RegistryLoadError A → Result LoadFailure A
as_failure (err e) = err (registry_load_error e)
as_failure (ok a) = ok a

-- `TenantRegistry.load`
unfoldable pub load : Bool → RegistryFile → Result LoadFailure TenantRegistry
unfolding read_document
load path_exists file = do
  guard path_exists (registry_load_error missing_file)
  document ← read_document file
  as_failure (add_tenants document (record { tenants_by_id = []; tenants_by_domain = [] }))

-- `host.split(":", 1)[0]`
abbrev pub first_part : List Text → Text
first_part [] = []
first_part (p ∷ ps) = p

-- The name that a Host header stands for: trimmed, in lower case, without a port.
unfoldable pub normalize_host : Text → Text
normalize_host header =
    let host = lower (strip header) in
    if nat_beq (count b':' host) 1 then first_part (split b':' host) else host

unfoldable pub resolve_by_host : TenantRegistry → Option Text → Option TenantConfig
resolve_by_host r none = none
resolve_by_host r (some header) =
    if is_empty header then none else lookup (normalize_host header) r.tenants_by_domain
