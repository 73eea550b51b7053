-- ===== src/Quota/Memory/Isolation.antt =====
-- The quota of one tenant while another one is served.
use saa_s_governance_layer_r.Common.{
  ℕ, ◌≡◌, ◌≢◌, refl, inl, inr, false, Option, Text, text_eq, pair_eq, ◌==◌, ==_iff, ℤ, arith, ◌∙◌,
  subst, sym,
}
use saa_s_governance_layer_r.Registry.{TenantLimits}
use saa_s_governance_layer_r.Quota.{candidate_tokens, effective_request_id}
use saa_s_governance_layer_r.Quota.Memory.{
  InMemoryQuotaEnforcer, user_records_of, tenant_records_of, active_user_of, active_tenant_of,
  pruned, recorded, check_and_record, finish_request,
}
use saa_s_governance_layer_r.Quota.Memory.Entries.{
  user_records-pruned, tenant_records-pruned, active_user-pruned, active_tenant-pruned,
  user_records-recorded, tenant_records-recorded, active_user-recorded, active_tenant-recorded,
  active_user-finish, active_tenant-finish,
}
use saa_s_governance_layer_r.Quota.Memory.Limits.{check_and_record-outcome}

-- Two states keep the same of a tenant and of one of its users.
pub record AgreeAt (s s' : InMemoryQuotaEnforcer) (t u : Text) : Type 0 where
  pub user_records : user_records_of s' (t, u) ≡ user_records_of s (t, u)
  pub tenant_records : tenant_records_of s' t ≡ tenant_records_of s t
  pub active_user : active_user_of s' (t, u) ≡ active_user_of s (t, u)
  pub active_tenant : active_tenant_of s' t ≡ active_tenant_of s t

AgreeAt-trans :
    {s s' s'' : InMemoryQuotaEnforcer} {t u : Text}
    → AgreeAt s s' t u
    → AgreeAt s' s'' t u
    → AgreeAt s s'' t u
AgreeAt-trans a b = record {
  user_records = b.user_records ∙ a.user_records;
  tenant_records = b.tenant_records ∙ a.tenant_records;
  active_user = b.active_user ∙ a.active_user;
  active_tenant = b.active_tenant ∙ a.active_tenant;
}

module _ (s : InMemoryQuotaEnforcer) (t u t' u' : Text) (other : t ≢ t') where
  different : (t == t') ≡ false
  different = ground (arith, ==_iff t t')

  pruned-AgreeAt : (now : ℕ) → AgreeAt s (pruned s t u now) t' u'
  pruned-AgreeAt now = record {
    user_records = rw (user_records-pruned s t u now (t', u'), different);
    tenant_records = rw (tenant_records-pruned s t u now t', different);
    active_user = rw (active_user-pruned s t u now (t', u'), different);
    active_tenant = rw (active_tenant-pruned s t u now t', different);
  }

  recorded-AgreeAt :
      (rid : Text) (candidate now : ℕ) → AgreeAt s (recorded s t u rid candidate now) t' u'
  recorded-AgreeAt rid candidate now = record {
    user_records = rw (user_records-recorded s t u rid candidate now (t', u'), different);
    tenant_records = rw (tenant_records-recorded s t u rid candidate now t', different);
    active_user = rw (active_user-recorded s t u rid candidate now (t', u'), different);
    active_tenant = rw (active_tenant-recorded s t u rid candidate now t', different);
  }

  finish-AgreeAt : (rid : Option Text) → AgreeAt s (finish_request s t u rid) t' u'
  unfolding finish_request
  finish-AgreeAt rid = record {
    user_records = refl;
    tenant_records = refl;
    active_user = rw (active_user-finish s t u rid (t', u'), different);
    active_tenant = rw (active_tenant-finish s t u rid t', different);
  }

-- A check for one tenant and the end of one of its requests leave the records and the requests in
-- flight of every other tenant, and of each of its users, as they were, admitted or not.
pub check_and_record-AgreeAt :
    (s : InMemoryQuotaEnforcer) (t u t' u' : Text) (limits : TenantLimits) (estimate : Option ℤ)
    (rid : Option Text) (uuid : Text) (now : ℕ)
    → t ≢ t'
    → AgreeAt s (check_and_record s t u limits estimate rid uuid now).0 t' u'
      × AgreeAt s (finish_request s t u rid) t' u'
check_and_record-AgreeAt s t u t' u' limits estimate rid uuid now other =
    let cleaned = pruned-AgreeAt s t u t' u' other now in
    let after = (check_and_record s t u limits estimate rid uuid now).0 in
    let checked : AgreeAt s after t' u' =
      elim (check_and_record-outcome s t u limits estimate rid uuid now) [
        | inl (room, same) ↦
            subst (λ x. AgreeAt s x t' u') (sym same)
              (AgreeAt-trans cleaned (
                recorded-AgreeAt (pruned s t u now) t u t' u' other (effective_request_id rid uuid)
                  (candidate_tokens estimate) now))
        | inr same ↦ subst (λ x. AgreeAt s x t' u') (sym same) cleaned
      ] in
    (checked, finish-AgreeAt s t u t' u' other rid)
