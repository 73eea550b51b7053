-- ===== src/Governance.antt =====
-- adapter_governance.py: the checks of an adapter's artifact record.
use saa_s_governance_layer_r.Common.{
  ℕ, ◌≤◌, ◌≡◌, Bool, true, false, not, ◌||◌, Option, none, some, Text, codes, contains, text_eq,
  ◌==◌, ==_iff, if◌then◌else◌, lookup, is_empty, length, ltb, arith, inl, inr, Option-cases, ◌↔◌,
}
use saa_s_governance_layer_r.Reason.{Reason}
use saa_s_governance_layer_r.Settings.{AdapterGovernanceMode, is_given}
use saa_s_governance_layer_r.Registry.{TenantConfig, AdapterArtifactPolicy}

pub record AdapterGovernanceDecision : Type 0 where
  pub allowed : Bool
  pub status_code : ℕ
  pub reason : Reason

abbrev permit : Reason → AdapterGovernanceDecision
permit reason = record { allowed = true; status_code = 200; reason = reason }

abbrev refuse : Reason → AdapterGovernanceDecision
refuse reason = record { allowed = false; status_code = 403; reason = reason }

-- The checks of an artifact, in the source's order.
unfoldable pub govern : AdapterArtifactPolicy → Text → AdapterGovernanceDecision
govern artifact model =
    if not (artifact.status == codes "active")
    then refuse (Reason.adapter_status artifact.status)
    else if not (contains artifact.compatible_models model)
    then refuse Reason.adapter_model_incompatible
    else if is_empty artifact.sha256 || ltb (length artifact.sha256) 32
    then refuse Reason.adapter_checksum_missing
    else if not (is_given artifact.signed_by)
    then refuse Reason.adapter_signature_missing
    else permit Reason.adapter_governed

unfoldable pub evaluate_adapter_governance :
    TenantConfig → Text → Option Text → AdapterGovernanceMode → AdapterGovernanceDecision
unfolding govern
evaluate_adapter_governance tenant model none mode = permit Reason.no_adapter_requested
evaluate_adapter_governance tenant model (some adapter) AdapterGovernanceMode.allowlist_only =
    permit Reason.adapter_allowlist_only
evaluate_adapter_governance tenant model (some adapter) AdapterGovernanceMode.catalog_enforced =
    elim (lookup adapter tenant.adapter_artifacts) [
      | none ↦ refuse Reason.adapter_not_governed
      | some artifact ↦ govern artifact model
    ]

-- An artifact that may be served for a model.
pub record IsGoverned (artifact : AdapterArtifactPolicy) (model : Text) : Type 0 where
  pub active : artifact.status ≡ codes "active"
  pub compatible : contains artifact.compatible_models model ≡ true
  pub checksum : 32 ≤ length artifact.sha256
  pub signed : is_given artifact.signed_by ≡ true

govern_sound :
    (artifact : AdapterArtifactPolicy) (model : Text)
    → (govern artifact model).allowed ≡ true
    → IsGoverned artifact model
unfolding govern
govern_sound artifact model h = ground (arith, ==_iff artifact.status (codes "active"))

govern_complete :
    (artifact : AdapterArtifactPolicy) (model : Text)
    → IsGoverned artifact model
    → (govern artifact model).allowed ≡ true
unfolding govern
govern_complete artifact model g = ground (arith, ==_iff artifact.status (codes "active"))

-- Where the catalog is enforced, an adapter is allowed exactly if the tenant's catalog has an
-- artifact for it that is active, compatible with the model, signed, and has a checksum of at least
-- 32 characters.
pub evaluate_adapter_governance_iff :
    (tenant : TenantConfig) (model adapter : Text)
    → ((evaluate_adapter_governance tenant model
          (some adapter)
          AdapterGovernanceMode.catalog_enforced).allowed
        ≡ true)
      ↔ ((artifact : AdapterArtifactPolicy) × (lookup adapter tenant.adapter_artifacts
            ≡ some artifact)
          × IsGoverned artifact model)
unfolding evaluate_adapter_governance
evaluate_adapter_governance_iff tenant model adapter =
    elim (Option-cases (lookup adapter tenant.adapter_artifacts)) [
      | inl absent ↦ (
        (λ h. cc (rw (absent, evaluate_adapter_governance) at h)),
        (λ (artifact, found, g). cc (absent, found)),
      )
      | inr (artifact, found) ↦ (
        (λ h. (
          artifact,
          found,
          govern_sound artifact model (rw (found, evaluate_adapter_governance) at h),
        )),
        (λ (other, same, g).
            rw (same, evaluate_adapter_governance) (govern_complete other model g)),
      )
    ]
