-- ===== src/Verifier/Tests.antt =====
-- The sample registry, whose one artifact is an object in S3.
use saa_s_governance_layer_r.Common.{
  ◌≡◌, refl, ◌↔◌, false, none, some, Text, codes, text_eq, text_beq, Dict, lookup, is_empty, ok,
  err, All,
}
use saa_s_governance_layer_r.Registry.{TenantConfig}
use saa_s_governance_layer_r.Examples.{registry, artifact_a}
use saa_s_governance_layer_r.Verifier.{
  Artifacts, IsVerified, not_given, saved, raised, has_raised, chosen_tenants, selected_of,
  selected, compared, verify_adapter_artifact, verify_registry_adapters, exit_code, main, main_iff,
}

-- Every object has the digest of the sample artifact, and no file exists.
abbrev intact : Artifacts
intact = record {
  scheme = (λ uri. codes "s3");
  path = (λ uri. uri);
  file_sha256 = (λ path. none);
  s3_sha256 = (λ uri. ok artifact_a.sha256);
}

abbrev offline : Artifacts
offline = record intact { s3_sha256 = (λ uri. err (codes "EndpointConnectionError")) }

verifier_tests :
    (main intact registry none none not_given ≡ some 0)
    × (main offline registry none none not_given ≡ some 1)
    × (main intact registry (some (codes "tenant-x")) none not_given ≡ none)
    × (main intact registry (some (codes "tenant-b")) none not_given ≡ some 1)
    × (main intact registry none none raised ≡ none)
unfolding main verify_registry_adapters verify_adapter_artifact compared chosen_tenants selected_of
    selected exit_code lookup text_beq
verifier_tests = (refl, refl, refl, refl, refl)

main_iff_example : (main intact registry none none saved ≡ some 0) ↔ (
    (has_raised saved ≡ false)
    × (tenants : Dict Text TenantConfig) × (chosen_tenants intact registry none ≡ some tenants)
    × ((is_empty (selected_of intact none tenants) ≡ false)
        × All (IsVerified intact) (selected_of intact none tenants)))
main_iff_example = main_iff intact registry none none saved
