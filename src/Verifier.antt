-- ===== src/Verifier.antt =====
-- adapter_artifact_verifier.py: the check of adapter artifacts against the catalog, and the exit code of
-- the tool. Files, the S3 download, SHA-256 and `urlparse` are the parameter `Artifacts`.
mod Tests
use saa_s_governance_layer_r.Common.{
  ℕ, ◌+◌, ◌≡◌, ◌≢◌, refl, sym, ap, subst, ◌∙◌, ◌↔◌, ◌⊎◌, inl, inr, Bool, true, false, not, ◌&&◌,
  ◌||◌, List, [], ◌∷◌, ◌++◌, Option, none, some, Text, codes, text_eq, ◌==◌, ==_iff, text_beq_iff,
  Dict, lookup, map, filter, all, is_empty, contains, is_some, some_unique, Option-cases, Result,
  ok, err, if◌then◌else◌, All, arith, Bool-cases, both,
}
use saa_s_governance_layer_r.Settings.{is_given}
use saa_s_governance_layer_r.Registry.{AdapterArtifactPolicy, TenantConfig, TenantRegistry}

pub record Artifacts : Type 0 where
  -- `urlparse(uri)`, and the text of an exception's class
  pub scheme : (uri : Text) → Text
  pub path : (uri : Text) → Text
  -- The digest of a local file, if it exists, and that of an object, or the class of the exception that
  -- its download or its reading raised.
  pub file_sha256 : (path : Text) → Option Text
  pub s3_sha256 : (uri : Text) → Result Text Text

pub record ArtifactVerificationResult : Type 0 where
  pub passed : Bool
  pub reason : Text
  pub uri : Text
  pub expected_sha256 : Option Text
  pub actual_sha256 : Option Text

-- The comparison of the digest with the catalog's.
unfoldable pub compared : AdapterArtifactPolicy → (actual : Text) → ArtifactVerificationResult
compared policy actual = record {
  passed = actual == policy.sha256;
  reason = if actual == policy.sha256 then codes "sha256_match" else codes "sha256_mismatch";
  uri = policy.artifact_uri;
  expected_sha256 = some policy.sha256;
  actual_sha256 = some actual;
}

-- A result without a digest.
abbrev pub rejected : AdapterArtifactPolicy → (reason : Text) → ArtifactVerificationResult
rejected policy reason = record {
  passed = false;
  reason = reason;
  uri = policy.artifact_uri;
  expected_sha256 = some policy.sha256;
  actual_sha256 = none;
}

-- What became of `--evidence-out`: it was not given, its file was written, or the write has raised.
pub data EvidenceOut : Type 0 where
  not_given saved raised : EvidenceOut

abbrev pub has_raised : EvidenceOut → Bool
has_raised not_given = false
has_raised saved = false
has_raised raised = true

-- A digest that is the one of the catalog.
abbrev matches : Option Text → Text → Bool
matches none sha256 = false
matches (some actual) sha256 = actual == sha256

matches_iff : (o : Option Text) (s : Text) → (matches o s ≡ true) ↔ (o ≡ some s)
matches_iff none s = ((λ h. cc h), (λ h. cc h))
matches_iff (some actual) s =
    ((λ h. ap some ((==_iff actual s).0 h)), (λ h. (==_iff actual s).1 (some_unique refl h)))

all_three : (a b c : Bool) → (not a && (b && c)) ≡ true → (a ≡ false) × (b ≡ true) × (c ≡ true)
all_three a b c h = ground arith

module _ (artifacts : Artifacts) where
  abbrev pub is_local_uri : Text → Bool
  is_local_uri uri = is_empty (artifacts.scheme uri) || (artifacts.scheme uri == codes "file")

  -- `parsed.path if parsed.scheme == "file" else policy.artifact_uri`
  abbrev pub local_path : Text → Text
  local_path uri = if artifacts.scheme uri == codes "file" then artifacts.path uri else uri

  unfoldable pub verify_adapter_artifact : AdapterArtifactPolicy → ArtifactVerificationResult
  unfolding compared
  verify_adapter_artifact policy =
      if is_empty policy.sha256
      then record (rejected policy (codes "adapter_checksum_missing")) { expected_sha256 = none }
      else if not (is_given policy.signed_by)
      then rejected policy (codes "adapter_signature_metadata_missing")
      else if is_local_uri policy.artifact_uri
      then (elim (artifacts.file_sha256 (local_path policy.artifact_uri)) [
        | none ↦ rejected policy (codes "artifact_not_found")
        | some actual ↦ compared policy actual
      ])
      else if artifacts.scheme policy.artifact_uri == codes "s3"
      then (elim (artifacts.s3_sha256 policy.artifact_uri) [
        | err exception ↦ rejected policy (codes "s3_download_failed:" ++ exception)
        | ok actual ↦ compared policy actual
      ])
      else rejected policy (codes "unsupported_artifact_uri_scheme")

  -- The adapters of one tenant that the tool looks at.
  unfoldable pub selected :
      (model : Option Text) → Dict Text AdapterArtifactPolicy → List AdapterArtifactPolicy
  selected model [] = []
  selected none ((name, policy) ∷ adapters) = policy ∷ selected none adapters
  selected (some model) ((name, policy) ∷ adapters) =
      let rest = selected (some model) adapters in
      if contains policy.compatible_models model then policy ∷ rest else rest

  unfoldable pub selected_of :
      (model : Option Text) → Dict Text TenantConfig → List AdapterArtifactPolicy
  unfolding selected
  selected_of model [] = []
  selected_of model ((id, tenant) ∷ tenants) =
      selected model tenant.adapter_artifacts ++ selected_of model tenants

  -- `tenants`; an id that the registry does not have raises a `KeyError`.
  unfoldable pub chosen_tenants :
      TenantRegistry → (tenant_id : Option Text) → Option (Dict Text TenantConfig)
  chosen_tenants registry none = some registry.tenants_by_id
  chosen_tenants registry (some []) = some registry.tenants_by_id
  chosen_tenants registry (some (c ∷ s)) = elim (lookup (c ∷ s) registry.tenants_by_id) [
    | none ↦ none
    | some tenant ↦ some ((c ∷ s, tenant) ∷ [])
  ]

  unfoldable pub verify_registry_adapters :
      TenantRegistry → (tenant_id model : Option Text) → Option (List ArtifactVerificationResult)
  unfolding verify_adapter_artifact selected_of chosen_tenants
  verify_registry_adapters registry tenant_id model = elim (chosen_tenants registry tenant_id) [
    | none ↦ none
    | some tenants ↦ some (map verify_adapter_artifact (selected_of model tenants))
  ]

  -- `0 if results and all(result.ok for result in results) else 1`
  unfoldable pub exit_code : List ArtifactVerificationResult → ℕ
  exit_code results = if not (is_empty results) && all (λ r. r.passed) results then 0 else 1

  -- `main`, on a registry that is loaded; an exception has no code.
  unfoldable pub main : TenantRegistry → (tenant_id model : Option Text) → EvidenceOut → Option ℕ
  unfolding verify_registry_adapters exit_code
  main registry tenant_id model evidence_out =
      elim (verify_registry_adapters registry tenant_id model) [
        | none ↦ none
        | some results ↦ if has_raised evidence_out then none else some (exit_code results)
      ]

  -- The digest that the tool can compute of an artifact.
  unfoldable pub digest_of : Text → Option Text
  digest_of uri =
      if is_local_uri uri
      then artifacts.file_sha256 (local_path uri)
      else if artifacts.scheme uri == codes "s3"
      then (elim (artifacts.s3_sha256 uri) [ err exception ↦ none | ok actual ↦ some actual ])
      else none

  -- An artifact with a checksum and a signer whose bytes have that checksum.
  abbrev pub IsVerified : AdapterArtifactPolicy → Type 0
  IsVerified policy =
      (is_empty policy.sha256 ≡ false)
      × (is_given policy.signed_by ≡ true)
      × (digest_of policy.artifact_uri ≡ some policy.sha256)

  passed_lem :
      (policy : AdapterArtifactPolicy)
      → (verify_adapter_artifact policy).passed ≡ (
          not (is_empty policy.sha256)
          && (is_given policy.signed_by && matches (digest_of policy.artifact_uri) policy.sha256))
  unfolding verify_adapter_artifact digest_of compared
  passed_lem policy = ground arith

  verify_adapter_artifact_iff :
      (policy : AdapterArtifactPolicy)
      → ((verify_adapter_artifact policy).passed ≡ true) ↔ IsVerified policy
  verify_adapter_artifact_iff policy =
      let same = matches_iff (digest_of policy.artifact_uri) policy.sha256 in
      let read = passed_lem policy in
      (
        (λ h.
            let (sum, signed, digest) = all_three _ _ _ (sym read ∙ h) in
            (sum, signed, same.0 digest)),
        (λ (sum, signed, digest). read ∙ rw (sum, signed, same.1 digest) refl),
      )

  all-passed_iff :
      (policies : List AdapterArtifactPolicy)
      → (all (λ r. r.passed) (map verify_adapter_artifact policies) ≡ true)
        ↔ All IsVerified policies
  all-passed_iff [] = ((λ h. tt), (λ h. refl))
  all-passed_iff (policy ∷ policies) =
      let one = verify_adapter_artifact_iff policy in
      let rest = all-passed_iff policies in
      (
        (λ h. let (first, later) = both _ _ h in (one.0 first, rest.0 later)),
        (λ h. rw (one.1 h.0, rest.1 h.1) refl),
      )

  main-missing :
      (registry : TenantRegistry) (tenant_id model : Option Text) (evidence_out : EvidenceOut)
      → chosen_tenants registry tenant_id ≡ none
      → main registry tenant_id model evidence_out ≡ none
  unfolding main
  main-missing registry tenant_id model evidence_out missing =
      rw (main, verify_registry_adapters, missing) refl

  main-raised :
      (registry : TenantRegistry) (tenant_id model : Option Text) (evidence_out : EvidenceOut)
      → has_raised evidence_out ≡ true
      → main registry tenant_id model evidence_out ≡ none
  unfolding main
  main-raised registry tenant_id model evidence_out failed =
      elim (Option-cases (verify_registry_adapters registry tenant_id model)) [
        | inl missing ↦ rw (main, missing) refl
        | inr (results, found) ↦ rw (main, found, failed) refl
      ]

  main-found :
      (registry : TenantRegistry) (tenant_id model : Option Text) (evidence_out : EvidenceOut)
      (tenants : Dict Text TenantConfig)
      → chosen_tenants registry tenant_id ≡ some tenants
      → has_raised evidence_out ≡ false
      → main registry tenant_id model evidence_out
        ≡ some (exit_code (map verify_adapter_artifact (selected_of model tenants)))
  unfolding main
  main-found registry tenant_id model evidence_out tenants found fine =
      rw (main, verify_registry_adapters, found, fine) refl

  exit_code_iff :
      (policies : List AdapterArtifactPolicy)
      → (exit_code (map verify_adapter_artifact policies) ≡ 0)
        ↔ ((is_empty policies ≡ false) × All IsVerified policies)
  unfolding exit_code
  exit_code_iff [] = ((λ h. ground arith), (λ h. cc h.0))
  exit_code_iff (policy ∷ policies) =
      let every = all-passed_iff (policy ∷ policies) in
      ((λ h. (refl, every.0 (ground arith))), (λ h. rw (every.1 h.1) refl))

  -- The tool ends with 0 exactly if the write of the evidence file, if there was one, did not raise, it
  -- looks at some adapter, the tenant that it was asked for is in the registry, and every adapter that
  -- it looks at has a checksum and a signer in the catalog and an artifact that can be read and has
  -- this checksum.
  pub main_iff :
      (registry : TenantRegistry) (tenant_id model : Option Text) (evidence_out : EvidenceOut)
      → (main registry tenant_id model evidence_out ≡ some 0) ↔ (
          (has_raised evidence_out ≡ false)
          × (tenants : Dict Text TenantConfig) × (chosen_tenants registry tenant_id ≡ some tenants)
          × ((is_empty (selected_of model tenants) ≡ false)
              × All IsVerified (selected_of model tenants)))
  main_iff registry tenant_id model evidence =
      elim (Option-cases (chosen_tenants registry tenant_id)) [
        | inl missing ↦ (
          (λ h. cc (h, main-missing registry tenant_id model evidence missing)),
          (λ p. cc (p.2, missing)),
        )
        | inr (tenants, found) ↦ elim (Bool-cases (has_raised evidence)) [
          | inl failed ↦ (
            (λ h. cc (h, main-raised registry tenant_id model evidence failed)),
            (λ p. cc (p.0, failed)),
          )
          | inr fine ↦
              let ends = main-found registry tenant_id model evidence tenants found fine in
              let code = exit_code_iff (selected_of model tenants) in
              (
                (λ h. (fine, tenants, found, code.0 (some_unique refl (sym ends ∙ h)))),
                (λ (also, others, found', rest).
                    ends
                    ∙ ap some (
                        code.1 (
                          subst
                            (λ x.
                              (is_empty (selected_of model x) ≡ false)
                              × All IsVerified (selected_of model x))
                            (some_unique found' found) rest))),
              )
        ]
      ]
