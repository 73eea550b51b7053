-- ===== src/Quota/Memory/Slots.antt =====
-- The concurrency slots of the in-memory enforcer, by request id.
use saa_s_governance_layer_r.Common.{
  ℕ, ◌≡◌, true, [], ◌∷◌, ◌++◌, Option, none, some, Text, text_eq, pair_eq, ==-refl, ℤ, lookup,
  insert, erase-insert, length, length-insert, has, arith,
}
use saa_s_governance_layer_r.Registry.{TenantLimits}
use saa_s_governance_layer_r.Quota.{candidate_tokens, effective_request_id}
use saa_s_governance_layer_r.Quota.Memory.{
  InMemoryQuotaEnforcer, user_records_of, tenant_records_of, active_user_of, active_tenant_of,
  pruned, recorded, release, check_and_record, finish_request,
}
use saa_s_governance_layer_r.Quota.Memory.Entries.{
  active_user-recorded, active_tenant-recorded, active_user-finish, active_tenant-finish,
  user_records-recorded, tenant_records-recorded, entry,
}
use saa_s_governance_layer_r.Quota.Memory.Limits.{admitted-recorded}

module _ (s : InMemoryQuotaEnforcer) (t u rid : Text) (candidate now : ℕ) where
  active_user-taken :
      active_user_of (recorded s t u rid candidate now) (t, u)
      ≡ insert rid now (active_user_of s (t, u))
  active_user-taken = rw (active_user-recorded s t u rid candidate now (t, u), ==-refl t, ==-refl u)

  active_tenant-taken :
      active_tenant_of (recorded s t u rid candidate now) t ≡ insert rid now (active_tenant_of s t)
  active_tenant-taken = rw (active_tenant-recorded s t u rid candidate now t, ==-refl t)

  finish-recorded :
      lookup rid (active_user_of s (t, u)) ≡ none
      → lookup rid (active_tenant_of s t) ≡ none
      → let finished = finish_request (recorded s t u rid candidate now) t u (some rid) in
        (active_user_of finished (t, u) ≡ active_user_of s (t, u))
        × (active_tenant_of finished t ≡ active_tenant_of s t)
        × (user_records_of finished (t, u) ≡ user_records_of s (t, u) ++ entry candidate now ∷ [])
        × (tenant_records_of finished t ≡ tenant_records_of s t ++ entry candidate now ∷ [])
  unfolding release
  finish-recorded fresh_user fresh_tenant =
      let r = recorded s t u rid candidate now in
      (
        rw (active_user-finish r t u (some rid) (t, u), ==-refl t, ==-refl u, active_user-taken)
            (erase-insert rid now (active_user_of s (t, u)) fresh_user),
        rw (active_tenant-finish r t u (some rid) t, ==-refl t, active_tenant-taken)
            (erase-insert rid now (active_tenant_of s t) fresh_tenant),
        unfold finish_request in
            rw (user_records-recorded s t u rid candidate now (t, u), ==-refl t, ==-refl u),
        unfold finish_request in rw (tenant_records-recorded s t u rid candidate now t, ==-refl t),
      )

-- A request that is admitted under an id that is not in flight, and then finished, gives back its
-- slots: the requests in flight of its user and tenant are the cleaned ones from before the check,
-- while its usage record stays in the window of both.
pub finish-check :
    (s : InMemoryQuotaEnforcer) (t u : Text) (limits : TenantLimits) (estimate : Option ℤ)
    (rid uuid : Text) (now : ℕ)
    → let cleaned = pruned s t u now in
      let checked = check_and_record s t u limits estimate (some rid) uuid now in
      let used = effective_request_id (some rid) uuid in
      let finished = finish_request checked.0 t u (some used) in
      checked.1.allowed ≡ true
      → lookup used (active_user_of cleaned (t, u)) ≡ none
      → lookup used (active_tenant_of cleaned t) ≡ none
      → (active_user_of finished (t, u) ≡ active_user_of cleaned (t, u))
        × (active_tenant_of finished t ≡ active_tenant_of cleaned t)
        × (user_records_of finished (t, u)
            ≡ user_records_of cleaned (t, u) ++ entry (candidate_tokens estimate) now ∷ [])
        × (tenant_records_of finished t
            ≡ tenant_records_of cleaned t ++ entry (candidate_tokens estimate) now ∷ [])
finish-check s t u limits estimate rid uuid now admitted fresh_user fresh_tenant =
    let c = candidate_tokens estimate in
    let used = effective_request_id (some rid) uuid in
    rw (admitted-recorded s t u limits estimate (some rid) uuid now admitted)
      (finish-recorded (pruned s t u now) t u used c now fresh_user fresh_tenant)

-- A request whose id is already in flight for its user takes no further slot: when it is admitted,
-- the user's requests in flight are as many as before. The id is the client's `x-request-id`.
pub replayed_id-uncounted :
    (s : InMemoryQuotaEnforcer) (t u : Text) (limits : TenantLimits) (estimate : Option ℤ)
    (rid uuid : Text) (now : ℕ)
    → let cleaned = pruned s t u now in
      let checked = check_and_record s t u limits estimate (some rid) uuid now in
      checked.1.allowed ≡ true
      → has (effective_request_id (some rid) uuid) (active_user_of cleaned (t, u)) ≡ true
      → length (active_user_of checked.0 (t, u)) ≡ length (active_user_of cleaned (t, u))
replayed_id-uncounted s t u limits estimate rid uuid now admitted held =
    let c = candidate_tokens estimate in
    let used = effective_request_id (some rid) uuid in
    let cleaned = pruned s t u now in
    rw
      (
        admitted-recorded s t u limits estimate (some rid) uuid now admitted,
        active_user-taken cleaned t u used c now,
        length-insert used now (active_user_of cleaned (t, u)),
        held,
      )
      (omega arith)
