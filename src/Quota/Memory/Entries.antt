-- ===== src/Quota/Memory/Entries.antt =====
-- What each operation of the in-memory enforcer leaves under every key.
use saa_s_governance_layer_r.Common.{
  ℕ, ◌≡◌, [], ◌∷◌, ◌++◌, Option, Text, text_eq, pair_eq, ◌==◌, insert, get_or-insert, if◌then◌else◌,
}
use saa_s_governance_layer_r.Quota.{UsageRecord}
use saa_s_governance_layer_r.Quota.Memory.{
  UserKey, InMemoryQuotaEnforcer, user_records_of, tenant_records_of, active_user_of,
  active_tenant_of, drop_expired_records, drop_stale_concurrency, pruned, recorded, release,
  finish_request,
}

module _ (s : InMemoryQuotaEnforcer) (t u : Text) (now : ℕ) where
  pub user_records-pruned :
      (k : UserKey)
      → user_records_of (pruned s t u now) k ≡ (
          if (t, u) == k
          then drop_expired_records s.window_seconds now (user_records_of s (t, u))
          else user_records_of s k)
  unfolding pruned
  user_records-pruned k = get_or-insert (t, u) k _ [] s.user_records

  pub tenant_records-pruned :
      (k : Text)
      → tenant_records_of (pruned s t u now) k ≡ (
          if t == k
          then drop_expired_records s.window_seconds now (tenant_records_of s t)
          else tenant_records_of s k)
  unfolding pruned
  tenant_records-pruned k = get_or-insert t k _ [] s.tenant_records

  pub active_user-pruned :
      (k : UserKey)
      → active_user_of (pruned s t u now) k ≡ (
          if (t, u) == k
          then drop_stale_concurrency s.concurrency_ttl_seconds now (active_user_of s (t, u))
          else active_user_of s k)
  unfolding pruned
  active_user-pruned k = get_or-insert (t, u) k _ [] s.active_user

  pub active_tenant-pruned :
      (k : Text)
      → active_tenant_of (pruned s t u now) k ≡ (
          if t == k
          then drop_stale_concurrency s.concurrency_ttl_seconds now (active_tenant_of s t)
          else active_tenant_of s k)
  unfolding pruned
  active_tenant-pruned k = get_or-insert t k _ [] s.active_tenant

abbrev pub entry : ℕ → ℕ → UsageRecord
entry candidate now = record { timestamp = now; input_tokens = candidate; output_tokens = 0 }

module _ (s : InMemoryQuotaEnforcer) (t u rid : Text) (candidate now : ℕ) where
  pub user_records-recorded :
      (k : UserKey)
      → user_records_of (recorded s t u rid candidate now) k ≡ (
          if (t, u) == k
          then user_records_of s (t, u) ++ entry candidate now ∷ []
          else user_records_of s k)
  unfolding recorded
  user_records-recorded k = get_or-insert (t, u) k _ [] s.user_records

  pub tenant_records-recorded :
      (k : Text)
      → tenant_records_of (recorded s t u rid candidate now) k ≡ (
          if t == k
          then tenant_records_of s t ++ entry candidate now ∷ []
          else tenant_records_of s k)
  unfolding recorded
  tenant_records-recorded k = get_or-insert t k _ [] s.tenant_records

  pub active_user-recorded :
      (k : UserKey)
      → active_user_of (recorded s t u rid candidate now) k
        ≡ (if (t, u) == k then insert rid now (active_user_of s (t, u)) else active_user_of s k)
  unfolding recorded
  active_user-recorded k = get_or-insert (t, u) k _ [] s.active_user

  pub active_tenant-recorded :
      (k : Text)
      → active_tenant_of (recorded s t u rid candidate now) k
        ≡ (if t == k then insert rid now (active_tenant_of s t) else active_tenant_of s k)
  unfolding recorded
  active_tenant-recorded k = get_or-insert t k _ [] s.active_tenant

module _ (s : InMemoryQuotaEnforcer) (t u : Text) (rid : Option Text) where
  pub active_user-finish :
      (k : UserKey)
      → active_user_of (finish_request s t u rid) k
        ≡ (if (t, u) == k then release rid (active_user_of s (t, u)) else active_user_of s k)
  unfolding finish_request
  active_user-finish k = get_or-insert (t, u) k _ [] s.active_user

  pub active_tenant-finish :
      (k : Text)
      → active_tenant_of (finish_request s t u rid) k
        ≡ (if t == k then release rid (active_tenant_of s t) else active_tenant_of s k)
  unfolding finish_request
  active_tenant-finish k = get_or-insert t k _ [] s.active_tenant
