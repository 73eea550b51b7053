-- ===== src/Settings/Guards.antt =====
-- What settings that passed validation satisfy.
use saa_s_governance_layer_r.Common.{
  ◌≤◌, ◌≡◌, ◌⊎◌, true, ok, arith, >>=-eq-ok, guard-eq-ok, sym, subst, ◌∙◌,
}
use saa_s_governance_layer_r.Settings.{
  AppSettings, AuthMode, BillingMode, is_local, within_bounds, is_given, out_of_range,
  reject_mock_auth_outside_local, require_tokenizer_assets_for_configured_mode,
  require_paths_for_file_backed_modes, model_validate, strip_trailing_slash,
}

abbrev IsMockGuarded : AppSettings → Type 0
IsMockGuarded s =
    s.auth_mode ≡ AuthMode.mock
    → (is_local s.environment ≡ true) ⊎ (s.unsafe_allow_mock_auth_outside_local ≡ true)

abbrev IsBucketGiven : AppSettings → Type 0
IsBucketGiven s =
    s.billing_mode ≡ BillingMode.aws_native_reference → is_given s.aws_billing_s3_bucket ≡ true

abbrev HasPositiveSizes : AppSettings → Type 0
HasPositiveSizes s =
    (1 ≤ s.quota_window_seconds)
    × (1 ≤ s.billing_queue_max_records)
    × (1 ≤ s.billing_batch_max_records)
    × (1 ≤ s.billing_lru_max_request_ids)

within_bounds-sizes : (s : AppSettings) → within_bounds s ≡ true → HasPositiveSizes s
unfolding within_bounds
within_bounds-sizes s h = ground arith

reject-ok :
    (s t : AppSettings) → reject_mock_auth_outside_local s ≡ ok t → (s ≡ t) × IsMockGuarded s
unfolding reject_mock_auth_outside_local
reject-ok s t h = ground arith

tokenizer-ok : (s t : AppSettings) → require_tokenizer_assets_for_configured_mode s ≡ ok t → s ≡ t
unfolding require_tokenizer_assets_for_configured_mode
tokenizer-ok s t h = ground arith

paths-ok :
    (s t : AppSettings) → require_paths_for_file_backed_modes s ≡ ok t → (s ≡ t) × IsBucketGiven s
unfolding require_paths_for_file_backed_modes
paths-ok s t h = ground arith

-- Settings that validation accepts are the raw ones without a trailing slash on the upstream URL.
-- They use mock authentication only in a local environment or with the unsafe override, name an S3
-- bucket if billing goes to AWS, and have a positive quota window, queue, batch and replay memory.
pub model_validate-guards :
    (raw s : AppSettings)
    → model_validate raw ≡ ok s
    → (s ≡ record raw { upstream_base_url = strip_trailing_slash raw.upstream_base_url })
      × (s.auth_mode ≡ AuthMode.mock
          → (is_local s.environment ≡ true) ⊎ (s.unsafe_allow_mock_auth_outside_local ≡ true))
      × (s.billing_mode ≡ BillingMode.aws_native_reference
          → is_given s.aws_billing_s3_bucket ≡ true)
      × (1 ≤ s.quota_window_seconds)
      × (1 ≤ s.billing_queue_max_records)
      × (1 ≤ s.billing_batch_max_records)
      × (1 ≤ s.billing_lru_max_request_ids)
unfolding model_validate
model_validate-guards raw s h =
    let (u, bounds, h1) = >>=-eq-ok _ _ h in
    let (a, rejected, h2) = >>=-eq-ok _ _ h1 in
    let (b, tokenizer, paths) = >>=-eq-ok _ _ h2 in
    let (is_raw, mocked) = reject-ok _ a rejected in
    let same : a ≡ b = tokenizer-ok a b tokenizer in
    let (last, bucket) = paths-ok b s paths in
    let whole = is_raw ∙ same ∙ last in
    let sizes =
      subst HasPositiveSizes whole (within_bounds-sizes raw (guard-eq-ok _ out_of_range bounds)) in
    (
      sym whole,
      subst IsMockGuarded whole mocked,
      subst IsBucketGiven last bucket,
      sizes.0,
      sizes.1,
      sizes.2,
      sizes.3,
    )
