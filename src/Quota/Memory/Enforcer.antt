-- ===== src/Quota/Memory/Enforcer.antt =====
-- The in-memory enforcer as the enforcer of the protocol.
use saa_s_governance_layer_r.Common.{
  ℕ, ◌≡◌, refl, Bool, true, false, ◌||◌, [], ◌∷◌, Option, some, Text, text_eq, pair_eq, ==-refl, ℤ,
  lookup-insert, lookup-erase, has,
}
use saa_s_governance_layer_r.Registry.{TenantLimits}
use saa_s_governance_layer_r.Quota.{QuotaEnforcer, candidate_tokens, effective_request_id}
use saa_s_governance_layer_r.Quota.Memory.{
  InMemoryQuotaEnforcer, active_user_of, active_tenant_of, pruned, recorded, release,
  check_and_record, finish_request,
}
use saa_s_governance_layer_r.Quota.Memory.Entries.{
  active_user-recorded, active_user-finish, active_tenant-finish,
}
use saa_s_governance_layer_r.Quota.Memory.Limits.{admitted-recorded}

abbrev pub in_flight : InMemoryQuotaEnforcer → (tenant_id user_id request_id : Text) → Bool
in_flight s t u rid = has rid (active_user_of s (t, u)) || has rid (active_tenant_of s t)

effective-some : (rid : Text) → effective_request_id (some rid) rid ≡ rid
unfolding effective_request_id
effective-some [] = refl
effective-some (c ∷ rid) = refl

in_flight-recorded :
    (s : InMemoryQuotaEnforcer) (t u rid : Text) (candidate now : ℕ)
    → in_flight (recorded s t u rid candidate now) t u rid ≡ true
in_flight-recorded s t u rid candidate now = rw (
  active_user-recorded s t u rid candidate now (t, u),
  ==-refl t,
  ==-refl u,
  lookup-insert rid rid now (active_user_of s (t, u)),
  ==-refl rid,
)

pub in_flight-admitted :
    (s : InMemoryQuotaEnforcer) (t u : Text) (limits : TenantLimits) (estimate : Option ℤ)
    (rid : Text) (now : ℕ)
    → (check_and_record s t u limits estimate (some rid) rid now).1.allowed ≡ true
    → in_flight (check_and_record s t u limits estimate (some rid) rid now).0 t u rid ≡ true
in_flight-admitted s t u limits estimate rid now h =
    rw (admitted-recorded s t u limits estimate (some rid) rid now h, effective-some rid)
      (in_flight-recorded (pruned s t u now) t u rid (candidate_tokens estimate) now)

pub in_flight-finished :
    (s : InMemoryQuotaEnforcer) (t u rid : Text)
    → in_flight (finish_request s t u (some rid)) t u rid ≡ false
unfolding release
in_flight-finished s t u rid = rw (
  active_user-finish s t u (some rid) (t, u),
  active_tenant-finish s t u (some rid) t,
  ==-refl t,
  ==-refl u,
  lookup-erase rid rid (active_user_of s (t, u)),
  lookup-erase rid rid (active_tenant_of s t),
  ==-refl rid,
)

-- The gateway's request id is never missing, so the enforcer makes none of its own.
abbrev pub in_memory : QuotaEnforcer
in_memory = record {
  State = InMemoryQuotaEnforcer;
  check_and_record =
      (λ s t u limits estimate rid now. check_and_record s t u limits estimate (some rid) rid now);
  finish_request = (λ s t u rid. finish_request s t u (some rid));
  in_flight = in_flight;
  admitted = in_flight-admitted;
  finished = in_flight-finished;
}
