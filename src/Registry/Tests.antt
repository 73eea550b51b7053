-- ===== src/Registry/Tests.antt =====
-- The registry and the settings at the sample data.
use saa_s_governance_layer_r.Common.{
  ◌≡◌, refl, ◌↔◌, ◌++◌, ◌⊎◌, true, List, [], ◌∷◌, none, some, codes, text_beq, lower, strip, count,
  split, ok, err, lookup, insert, text_eq, All, ◌≤◌,
}
use saa_s_governance_layer_r.Settings.{
  AppSettings, AuthMode, BillingMode, is_given, is_local, model_validate, within_bounds,
  strip_trailing_slash, reject_mock_auth_outside_local,
  require_tokenizer_assets_for_configured_mode, require_paths_for_file_backed_modes,
}
use saa_s_governance_layer_r.Settings.Guards.{model_validate-guards}
use saa_s_governance_layer_r.Examples.{tenant_a, tenant_b, registry, settings}
use saa_s_governance_layer_r.Registry.{
  TenantConfig, parsed, not_utf8, registry_load_error, unicode_decode_error, read_document,
  duplicate_tenant_id, domain_maps_to_multiple_tenants, validate_document, validate_tenant,
  lower_domains, validate_artifacts, validate_status, validate_limits, require_evidence_when_proven,
  add_domains, add_tenants, load, normalize_host, resolve_by_host,
}
use saa_s_governance_layer_r.Registry.Load.{load-IsConsistent, IsRegistered, IsConsistent}
use saa_s_governance_layer_r.Registry.Resolve.{IsOwner, resolve_by_host-load}

loading : Unit {0}
unfolding load read_document validate_document validate_tenant lower_domains validate_artifacts
    validate_status validate_limits require_evidence_when_proven add_tenants add_domains lookup
    insert lower strip text_beq
loading = tt

resolving : Unit {0}
unfolding resolve_by_host normalize_host lower strip count split lookup text_beq
resolving = tt

abbrev documents : List TenantConfig
documents = record tenant_a { domains = codes " A.Local" ∷ codes "" ∷ [] } ∷ tenant_b ∷ []

load-documents : load true (parsed documents) ≡ ok registry
unfolding loading
load-documents = refl

load_duplicates :
    (load true (parsed (tenant_a ∷ tenant_a ∷ []))
      ≡ err (registry_load_error (duplicate_tenant_id (codes "tenant-a"))))
    × (load true (parsed (tenant_a ∷ record tenant_b { domains = codes "a.LOCAL" ∷ [] } ∷ []))
        ≡ err (
            registry_load_error (
              domain_maps_to_multiple_tenants
                (codes "a.local")
                (codes "tenant-a")
                (codes "tenant-b"))))
    × (load true not_utf8 ≡ err unicode_decode_error)
unfolding loading
load_duplicates = (refl, refl, refl)

resolve_tests :
    (resolve_by_host registry (some (codes " A.Local:8080 ")) ≡ some tenant_a)
    × (resolve_by_host registry (some (codes "c.local")) ≡ none)
    × (resolve_by_host registry none ≡ none)
unfolding resolving
resolve_tests = (refl, refl, refl)

load-IsConsistent_example :
    (document : List TenantConfig) × (validate_document documents ≡ some document)
    × All (IsRegistered registry) document
    × IsConsistent registry
load-IsConsistent_example = load-IsConsistent documents registry load-documents

resolve_by_host-load_example :
    ((resolve_by_host registry (some (codes "A.local")) ≡ some tenant_a)
      ↔ IsOwner registry (lower (codes "A.local")) tenant_a)
    × ((resolve_by_host registry (some (codes "A.local" ++ b':' ∷ codes "80")) ≡ some tenant_a)
        ↔ IsOwner registry (lower (codes "A.local")) tenant_a)
unfolding resolving
resolve_by_host-load_example =
    resolve_by_host-load documents registry (codes "A.local") (codes "80") tenant_a load-documents
      (λ h. cc h) refl refl refl refl

abbrev checked : AppSettings
checked = record settings { upstream_base_url = strip_trailing_slash settings.upstream_base_url }

accepted : model_validate settings ≡ ok checked
unfolding model_validate within_bounds reject_mock_auth_outside_local is_local
    require_tokenizer_assets_for_configured_mode require_paths_for_file_backed_modes lower strip
    text_beq
accepted = refl

model_validate-guards_example :
    (checked
      ≡ record settings { upstream_base_url = strip_trailing_slash settings.upstream_base_url })
    × (checked.auth_mode ≡ AuthMode.mock
        → (is_local checked.environment ≡ true)
          ⊎ (checked.unsafe_allow_mock_auth_outside_local ≡ true))
    × (checked.billing_mode ≡ BillingMode.aws_native_reference
        → is_given checked.aws_billing_s3_bucket ≡ true)
    × (1 ≤ checked.quota_window_seconds)
    × (1 ≤ checked.billing_queue_max_records)
    × (1 ≤ checked.billing_batch_max_records)
    × (1 ≤ checked.billing_lru_max_request_ids)
model_validate-guards_example = model_validate-guards settings checked accepted
