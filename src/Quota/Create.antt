-- ===== src/Quota/Create.antt =====
-- quota_enforcer.py, `create_quota_enforcer`: the enforcer that the settings choose.
use saa_s_governance_layer_r.Common.{
  ℕ, ◌≡◌, ◌⊎◌, inl, inr, some_unique, ap, refl, Option, none, some, ok, ◌≤◌,
}
use saa_s_governance_layer_r.Settings.{AppSettings, QuotaMode, model_validate}
use saa_s_governance_layer_r.Settings.Guards.{model_validate-guards}
use saa_s_governance_layer_r.Quota.Memory.{InMemoryQuotaEnforcer}
use saa_s_governance_layer_r.Quota.Memory
use saa_s_governance_layer_r.Quota.Redis.Methods.{RedisQuotaEnforcer}
use saa_s_governance_layer_r.Quota.Redis.Methods

-- An enforcer of either kind.
pub data ChosenEnforcer : Type 0 where
  in_process : InMemoryQuotaEnforcer → ChosenEnforcer
  in_redis : RedisQuotaEnforcer → ChosenEnforcer

unfoldable pub create_quota_enforcer : AppSettings → Option ChosenEnforcer
unfolding Methods.create
create_quota_enforcer settings = elim settings.quota_mode [
  | QuotaMode.disabled ↦ none
  | QuotaMode.in_memory ↦ some (
      in_process
        (Memory.create settings.quota_window_seconds settings.redis_quota_concurrency_ttl_seconds))
  | QuotaMode.redis ↦ some (
      in_redis (
        Methods.create settings.quota_window_seconds settings.redis_quota_key_prefix
          settings.redis_quota_concurrency_ttl_seconds))
]

-- The window of an enforcer, in seconds.
abbrev window_of : ChosenEnforcer → ℕ
window_of (in_process e) = e.window_seconds
window_of (in_redis e) = e.window_seconds

QuotaMode-cases :
    (m : QuotaMode) → (m ≡ QuotaMode.disabled) ⊎ (m ≡ QuotaMode.in_memory) ⊎ (m ≡ QuotaMode.redis)
QuotaMode-cases QuotaMode.disabled = inl refl
QuotaMode-cases QuotaMode.in_memory = inr (inl refl)
QuotaMode-cases QuotaMode.redis = inr (inr refl)

window_of_made :
    (s : AppSettings) (e : ChosenEnforcer)
    → create_quota_enforcer s ≡ some e
    → window_of e ≡ s.quota_window_seconds
unfolding create_quota_enforcer
window_of_made s e made = elim (QuotaMode-cases s.quota_mode) [
  | inl h ↦
      let got : create_quota_enforcer s ≡ none = rw (create_quota_enforcer, h) refl in
      cc (made, got)
  | inr (inl h) ↦
      let got : create_quota_enforcer s
          ≡ some (
              in_process
                (Memory.create s.quota_window_seconds s.redis_quota_concurrency_ttl_seconds)) =
        rw (create_quota_enforcer, h) refl in
      ap window_of (some_unique made got)
  | inr (inr h) ↦
      let got : create_quota_enforcer s
          ≡ some (
              in_redis (
                Methods.create s.quota_window_seconds s.redis_quota_key_prefix
                  s.redis_quota_concurrency_ttl_seconds)) =
        rw (create_quota_enforcer, h) refl in
      ap window_of (some_unique made got)
]

-- Under settings that passed validation, an enforcer that is made has a window of at least a second,
-- which the theorems on its answers ask for.
create_quota_enforcer_window :
    (raw s : AppSettings) (e : ChosenEnforcer)
    → model_validate raw ≡ ok s
    → create_quota_enforcer s ≡ some e
    → 1 ≤ window_of e
unfolding create_quota_enforcer
create_quota_enforcer_window raw s e valid made =
    let guards = model_validate-guards raw s valid in rw (window_of_made s e made) guards.3
