-- ===== src/Quota/Memory/History.antt =====
-- The limits along any history of calls, under one set of limits for each tenant.
use saa_s_governance_layer_r.Common.{
  ℕ, ◌+◌, ◌≤◌, ◌≡◌, sym, subst, inl, inr, Bool, true, false, List, [], ◌∷◌, ◌++◌, Option, none,
  some, Text, text_eq, pair_eq, ◌==◌, ==_iff, ℤ, length, length-append, insert, length-insert,
  erase, length-erase-le, lookup, if◌then◌else◌, arith, Bool-cases,
}
use saa_s_governance_layer_r.Registry.{TenantLimits}
use saa_s_governance_layer_r.Quota.{UsageRecord, AtMost, candidate_tokens, effective_request_id}
use saa_s_governance_layer_r.Quota.Memory.{
  UserKey, Active, InMemoryQuotaEnforcer, create, user_records_of, tenant_records_of,
  active_user_of, active_tenant_of, drop_expired_records, drop_stale_concurrency, pop_all,
  stale_ids, sum_input_tokens, pruned, recorded, check_and_record, release, finish_request,
}
use saa_s_governance_layer_r.Quota.Memory.Entries.{
  user_records-pruned, tenant_records-pruned, active_user-pruned, active_tenant-pruned,
  user_records-recorded, tenant_records-recorded, active_user-recorded, active_tenant-recorded,
  active_user-finish, active_tenant-finish, entry,
}
use saa_s_governance_layer_r.Quota.Memory.Limits.{AtMost-mono, HasRoomAt, check_and_record-outcome}

length-drop-le :
    (w now : ℕ) (rs : List UsageRecord) → length (drop_expired_records w now rs) ≤ length rs
unfolding drop_expired_records
length-drop-le w now [] = omega arith
length-drop-le w now (r ∷ rs) = ground (arith, length-drop-le w now rs)

sum-drop-le :
    (w now : ℕ) (rs : List UsageRecord)
    → sum_input_tokens (drop_expired_records w now rs) ≤ sum_input_tokens rs
unfolding drop_expired_records sum_input_tokens
sum-drop-le w now [] = omega arith
sum-drop-le w now (r ∷ rs) = ground (arith, sum-drop-le w now rs)

sum-append :
    (rs : List UsageRecord) (c now : ℕ)
    → sum_input_tokens (rs ++ entry c now ∷ []) ≡ sum_input_tokens rs + c
unfolding sum_input_tokens
sum-append [] c now = omega arith
sum-append (r ∷ rs) c now = omega (arith, sum-append rs c now)

length-pop_all-le : (ids : List Text) (a : Active) → length (pop_all ids a) ≤ length a
unfolding pop_all
length-pop_all-le [] a = omega arith
length-pop_all-le (i ∷ ids) a =
    omega (arith, length-pop_all-le ids (erase i a), length-erase-le i a)

length-stale-le : (ttl now : ℕ) (a : Active) → length (drop_stale_concurrency ttl now a) ≤ length a
unfolding drop_stale_concurrency
length-stale-le ttl now a = length-pop_all-le (stale_ids ttl now a) a

length-release-le : (rid : Option Text) (a : Active) → length (release rid a) ≤ length a
unfolding release
length-release-le none [] = omega arith
length-release-le none ((i, n) ∷ a) = length-erase-le i ((i, n) ∷ a)
length-release-le (some rid) a = length-erase-le rid a

-- What is kept for one user and tenant is within the tenant's limits.
pub record WithinAt (limits : TenantLimits) (s : InMemoryQuotaEnforcer) (t u : Text) : Type 0 where
  pub user_slots : AtMost limits.concurrent_requests (length (active_user_of s (t, u)))
  pub tenant_slots : AtMost limits.concurrent_requests (length (active_tenant_of s t))
  pub user_requests : AtMost limits.requests_per_minute (length (user_records_of s (t, u)))
  pub tenant_requests : AtMost limits.requests_per_minute (length (tenant_records_of s t))
  pub user_tokens :
      AtMost limits.input_tokens_per_minute (sum_input_tokens (user_records_of s (t, u)))
  pub tenant_tokens :
      AtMost limits.input_tokens_per_minute (sum_input_tokens (tenant_records_of s t))

abbrev pub IsWithin : (Text → TenantLimits) → InMemoryQuotaEnforcer → Type 0
IsWithin limits s = (t u : Text) → WithinAt (limits t) s t u

module _ (limits : Text → TenantLimits) (s : InMemoryQuotaEnforcer) (t u : Text) where
  -- A state with smaller counts is within the limits too.
  smaller-WithinAt :
      (s' : InMemoryQuotaEnforcer)
      → length (active_user_of s' (t, u)) ≤ length (active_user_of s (t, u))
      → length (active_tenant_of s' t) ≤ length (active_tenant_of s t)
      → length (user_records_of s' (t, u)) ≤ length (user_records_of s (t, u))
      → length (tenant_records_of s' t) ≤ length (tenant_records_of s t)
      → sum_input_tokens (user_records_of s' (t, u)) ≤ sum_input_tokens (user_records_of s (t, u))
      → sum_input_tokens (tenant_records_of s' t) ≤ sum_input_tokens (tenant_records_of s t)
      → WithinAt (limits t) s t u
      → WithinAt (limits t) s' t u
  smaller-WithinAt s' a b c d e f w = record {
    user_slots = AtMost-mono _ _ _ a w.user_slots;
    tenant_slots = AtMost-mono _ _ _ b w.tenant_slots;
    user_requests = AtMost-mono _ _ _ c w.user_requests;
    tenant_requests = AtMost-mono _ _ _ d w.tenant_requests;
    user_tokens = AtMost-mono _ _ _ e w.user_tokens;
    tenant_tokens = AtMost-mono _ _ _ f w.tenant_tokens;
  }

module _ (limits : Text → TenantLimits) (s : InMemoryQuotaEnforcer) (t u : Text) (now : ℕ) where
  pruned-IsWithin : IsWithin limits s → IsWithin limits (pruned s t u now)
  pruned-IsWithin w t' u' =
      let w1 = length-drop-le s.window_seconds now (user_records_of s (t, u)) in
      let w2 = length-drop-le s.window_seconds now (tenant_records_of s t) in
      let w3 = sum-drop-le s.window_seconds now (user_records_of s (t, u)) in
      let w4 = sum-drop-le s.window_seconds now (tenant_records_of s t) in
      let w5 = length-stale-le s.concurrency_ttl_seconds now (active_user_of s (t, u)) in
      let w6 = length-stale-le s.concurrency_ttl_seconds now (active_tenant_of s t) in
      smaller-WithinAt limits s t' u' (pruned s t u now)
        (ground
          (arith, w5, active_user-pruned s t u now (t', u'), ==_iff {A = UserKey} (t, u) (t', u')))
        (ground (arith, w6, active_tenant-pruned s t u now t', ==_iff t t'))
        (ground
          (arith, w1, user_records-pruned s t u now (t', u'), ==_iff {A = UserKey} (t, u) (t', u')))
        (ground (arith, w2, tenant_records-pruned s t u now t', ==_iff t t'))
        (ground
          (arith, w3, user_records-pruned s t u now (t', u'), ==_iff {A = UserKey} (t, u) (t', u')))
        (ground (arith, w4, tenant_records-pruned s t u now t', ==_iff t t')) (w t' u')

if-AtMost {ℓ} :
    {A : Type ℓ} (size : A → ℕ) (l : Option ℕ) (b : Bool) (x y : A)
    → AtMost l (size x)
    → AtMost l (size y)
    → AtMost l (size (if b then x else y))
if-AtMost size l true x y hx hy = hx
if-AtMost size l false x y hx hy = hy

insert-AtMost :
    (l : Option ℕ) (rid : Text) (now : ℕ) (a : Active)
    → AtMost l (length a + 1)
    → AtMost l (length (insert rid now a))
insert-AtMost l rid now a h =
    AtMost-mono l (length (insert rid now a)) (length a + 1)
      (ground (arith, length-insert rid now a)) h

append-AtMost :
    (l : Option ℕ) (rs : List UsageRecord) (c now : ℕ)
    → AtMost l (length rs + 1)
    → AtMost l (length (rs ++ entry c now ∷ []))
append-AtMost l rs c now h = rw (length-append rs (entry c now ∷ [])) h

tokens-AtMost :
    (l : Option ℕ) (rs : List UsageRecord) (c now : ℕ)
    → AtMost l (sum_input_tokens rs + c)
    → AtMost l (sum_input_tokens (rs ++ entry c now ∷ []))
tokens-AtMost l rs c now h = rw (sum-append rs c now) h

module _ (limits : Text → TenantLimits) (s : InMemoryQuotaEnforcer) (t u rid : Text)
    (candidate now : ℕ) (room : HasRoomAt s (limits t) t u candidate) where
  -- Every user of the tenant that was served stays within its limits.
  recorded-same :
      (u' : Text)
      → WithinAt (limits t) s t u'
      → WithinAt (limits t) (recorded s t u rid candidate now) t u'
  recorded-same u' w = record {
    user_slots =
        rw (active_user-recorded s t u rid candidate now (t, u'))
          (if-AtMost length _ _ _ _ (insert-AtMost _ rid now _ room.user_slot) w.user_slots);
    tenant_slots =
        rw (active_tenant-recorded s t u rid candidate now t)
          (if-AtMost length _ _ _ _ (insert-AtMost _ rid now _ room.tenant_slot) w.tenant_slots);
    user_requests = rw (user_records-recorded s t u rid candidate now (t, u')) (
        if-AtMost length _ _ _ _ (append-AtMost _ _ candidate now room.user_request)
          w.user_requests);
    tenant_requests = rw (tenant_records-recorded s t u rid candidate now t) (
        if-AtMost length _ _ _ _ (append-AtMost _ _ candidate now room.tenant_request)
          w.tenant_requests);
    user_tokens = rw (user_records-recorded s t u rid candidate now (t, u')) (
        if-AtMost sum_input_tokens _ _ _ _ (tokens-AtMost _ _ candidate now room.user_tokens)
          w.user_tokens);
    tenant_tokens = rw (tenant_records-recorded s t u rid candidate now t) (
        if-AtMost sum_input_tokens _ _ _ _ (tokens-AtMost _ _ candidate now room.tenant_tokens)
          w.tenant_tokens);
  }

  recorded-IsWithin : IsWithin limits s → IsWithin limits (recorded s t u rid candidate now)
  recorded-IsWithin w t' u' = elim (Bool-cases (t == t')) [
    | inr other ↦
        smaller-WithinAt limits s t' u' (recorded s t u rid candidate now)
          (ground (arith, active_user-recorded s t u rid candidate now (t', u')))
          (ground (arith, active_tenant-recorded s t u rid candidate now t'))
          (ground (arith, user_records-recorded s t u rid candidate now (t', u')))
          (ground (arith, tenant_records-recorded s t u rid candidate now t'))
          (ground (arith, user_records-recorded s t u rid candidate now (t', u')))
          (ground (arith, tenant_records-recorded s t u rid candidate now t')) (w t' u')
    | inl same ↦
        subst (λ x. WithinAt (limits x) (recorded s t u rid candidate now) x u')
          ((==_iff t t').0 same) (recorded-same u' (w t u'))
  ]

finish-IsWithin :
    (limits : Text → TenantLimits) (s : InMemoryQuotaEnforcer) (t u : Text) (rid : Option Text)
    → IsWithin limits s
    → IsWithin limits (finish_request s t u rid)
unfolding finish_request
finish-IsWithin limits s t u rid w t' u' =
    let w1 = length-release-le rid (active_user_of s (t, u)) in
    let w2 = length-release-le rid (active_tenant_of s t) in
    smaller-WithinAt limits s t' u' (finish_request s t u rid)
      (ground
        (arith, w1, active_user-finish s t u rid (t', u'), ==_iff {A = UserKey} (t, u) (t', u')))
      (ground (arith, w2, active_tenant-finish s t u rid t', ==_iff t t')) (omega arith)
      (omega arith) (omega arith) (omega arith) (w t' u')

-- A call of the enforcer: a check with its clock and fresh id, or the end of a request.
pub data Call : Type 0 where
  check : (tenant_id user_id : Text) → Option ℤ → Option Text → (uuid : Text) → (now : ℕ) → Call
  finish : (tenant_id user_id : Text) → Option Text → Call

abbrev pub step : (Text → TenantLimits) → InMemoryQuotaEnforcer → Call → InMemoryQuotaEnforcer
step limits s (check t u estimate rid uuid now) =
    (check_and_record s t u (limits t) estimate rid uuid now).0
step limits s (finish t u rid) = finish_request s t u rid

abbrev pub run : (Text → TenantLimits) → InMemoryQuotaEnforcer → List Call → InMemoryQuotaEnforcer
run limits s [] = s
run limits s (c ∷ cs) = run limits (step limits s c) cs

check-IsWithin :
    (limits : Text → TenantLimits) (s : InMemoryQuotaEnforcer) (t u : Text) (estimate : Option ℤ)
    (rid : Option Text) (uuid : Text) (now : ℕ)
    → IsWithin limits s
    → IsWithin limits (check_and_record s t u (limits t) estimate rid uuid now).0
check-IsWithin limits s t u estimate rid uuid now w =
    let cleaned = pruned-IsWithin limits s t u now w in
    elim (check_and_record-outcome s t u (limits t) estimate rid uuid now) [
      | inl (room, after) ↦ subst (IsWithin limits) (sym after) (
          recorded-IsWithin limits (pruned s t u now) t u (effective_request_id rid uuid)
            (candidate_tokens estimate) now room cleaned)
      | inr after ↦ subst (IsWithin limits) (sym after) cleaned
    ]

run-IsWithin :
    (limits : Text → TenantLimits) (s : InMemoryQuotaEnforcer) (calls : List Call)
    → IsWithin limits s
    → IsWithin limits (run limits s calls)
run-IsWithin limits s [] w = w
run-IsWithin limits s (check t u estimate rid uuid now ∷ calls) w =
    run-IsWithin limits (step limits s (check t u estimate rid uuid now)) calls
      (check-IsWithin limits s t u estimate rid uuid now w)
run-IsWithin limits s (finish t u rid ∷ calls) w =
    run-IsWithin limits (step limits s (finish t u rid)) calls (finish-IsWithin limits s t u rid w)

AtMost-zero : (l : Option ℕ) → AtMost l 0
AtMost-zero none = tt
AtMost-zero (some l) = omega arith

create-IsWithin :
    (limits : Text → TenantLimits) (window ttl : ℕ) → IsWithin limits (create window ttl)
unfolding lookup sum_input_tokens
create-IsWithin limits window ttl t u = record {
  user_slots = AtMost-zero (limits t).concurrent_requests;
  tenant_slots = AtMost-zero (limits t).concurrent_requests;
  user_requests = AtMost-zero (limits t).requests_per_minute;
  tenant_requests = AtMost-zero (limits t).requests_per_minute;
  user_tokens = AtMost-zero (limits t).input_tokens_per_minute;
  tenant_tokens = AtMost-zero (limits t).input_tokens_per_minute;
}

-- After any history of checks and finished requests on a new enforcer, whatever their order and
-- clocks, and if the limits of a tenant do not change: for every tenant and for each of its users, the
-- number of the distinct request ids that are kept as in flight, the number of the records kept and
-- the sum of their tokens are each within the tenant's limit. Requests that are in flight under the
-- same id count once among these ids.
pub run-create-IsWithin :
    (limits : Text → TenantLimits) (window ttl : ℕ) (calls : List Call)
    → IsWithin limits (run limits (create window ttl) calls)
run-create-IsWithin limits window ttl calls =
    run-IsWithin limits (create window ttl) calls (create-IsWithin limits window ttl)
