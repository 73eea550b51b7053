-- ===== src/Quota/Memory/Limits.antt =====
-- The tests of `check_and_record` against the limits of a tenant.
use saa_s_governance_layer_r.Common.{
  ℕ, ◌+◌, ◌≤◌, ◌≡◌, refl, ◌↔◌, ◌⊎◌, inl, inr, Bool, true, false, List, [], ◌∷◌, Option, none, some,
  Text, text_eq, pair_eq, ℤ, length, if◌then◌else◌, arith, Option-cases,
}
use saa_s_governance_layer_r.Reason.{Reason}
use saa_s_governance_layer_r.Registry.{TenantLimits}
use saa_s_governance_layer_r.Quota.{
  UsageRecord, QuotaDecision, AtMost, reaches, exceeds, candidate_tokens, effective_request_id,
}
use saa_s_governance_layer_r.Quota.Memory.{
  Active, InMemoryQuotaEnforcer, user_records_of, tenant_records_of, active_user_of,
  active_tenant_of, sum_input_tokens, retry_after, pruned, refusal, violation, violation_at,
  recorded, settle, check_and_record, quota_allowed_decision,
}

pub AtMost-mono : (l : Option ℕ) (m n : ℕ) → m ≤ n → AtMost l n → AtMost l m
AtMost-mono none m n h b = tt
AtMost-mono (some l) m n h b = omega arith

-- There is room for one more request of a given size.
pub record HasRoom (limits : TenantLimits) (ur tr : List UsageRecord) (ua ta : Active)
    (candidate : ℕ) : Type 0 where
  pub user_slot : AtMost limits.concurrent_requests (length ua + 1)
  pub tenant_slot : AtMost limits.concurrent_requests (length ta + 1)
  pub user_request : AtMost limits.requests_per_minute (length ur + 1)
  pub tenant_request : AtMost limits.requests_per_minute (length tr + 1)
  pub user_tokens : AtMost limits.input_tokens_per_minute (sum_input_tokens ur + candidate)
  pub tenant_tokens : AtMost limits.input_tokens_per_minute (sum_input_tokens tr + candidate)

reaches_iff : (l : Option ℕ) (n : ℕ) → (reaches l n ≡ false) ↔ AtMost l (n + 1)
reaches_iff none n = ((λ h. tt), (λ h. refl))
reaches_iff (some l) n = ((λ h. ground arith), (λ h. ground arith))

exceeds_iff : (l : Option ℕ) (n : ℕ) → (exceeds l n ≡ false) ↔ AtMost l n
exceeds_iff none n = ((λ h. tt), (λ h. refl))
exceeds_iff (some l) n = ((λ h. ground arith), (λ h. ground arith))

-- A ladder of six tests falls through exactly if every test fails.
pub ladder_iff :
    {D : Type 0} (a b c d e f : Bool) (p q r s t u : D)
    → ((if a
          then some p
          else if b
          then some q
          else if c
          then some r
          else if d
          then some s
          else if e
          then some t
          else if f
          then some u
          else none)
        ≡ none)
      ↔ ((a ≡ false) × (b ≡ false) × (c ≡ false) × (d ≡ false) × (e ≡ false) × (f ≡ false))
ladder_iff a b c d e f p q r s t u = ground arith

-- The six tests pass exactly if there is room.
pub violation-none_iff :
    (window : ℕ) (limits : TenantLimits) (ur tr : List UsageRecord) (ua ta : Active)
    (candidate now : ℕ)
    → (violation window limits ur tr ua ta candidate now ≡ none)
      ↔ HasRoom limits ur tr ua ta candidate
unfolding violation
violation-none_iff window limits ur tr ua ta candidate now = (
  (λ h.
      let (a, b, c, d, e, f) = (ladder_iff _ _ _ _ _ _ _ _ _ _ _ _).0 h in
      record {
        user_slot = (reaches_iff limits.concurrent_requests (length ua)).0 a;
        tenant_slot = (reaches_iff limits.concurrent_requests (length ta)).0 b;
        user_request = (exceeds_iff limits.requests_per_minute (length ur + 1)).0 c;
        tenant_request = (exceeds_iff limits.requests_per_minute (length tr + 1)).0 d;
        user_tokens = (exceeds_iff limits.input_tokens_per_minute _).0 e;
        tenant_tokens = (exceeds_iff limits.input_tokens_per_minute _).0 f;
      }),
  (λ w. (ladder_iff _ _ _ _ _ _ _ _ _ _ _ _).1 (
    (reaches_iff limits.concurrent_requests (length ua)).1 w.user_slot,
    (reaches_iff limits.concurrent_requests (length ta)).1 w.tenant_slot,
    (exceeds_iff limits.requests_per_minute (length ur + 1)).1 w.user_request,
    (exceeds_iff limits.requests_per_minute (length tr + 1)).1 w.tenant_request,
    (exceeds_iff limits.input_tokens_per_minute _).1 w.user_tokens,
    (exceeds_iff limits.input_tokens_per_minute _).1 w.tenant_tokens,
  )),
)

-- The cleaned entries that a request is tested on have room for it.
abbrev pub HasRoomAt :
    InMemoryQuotaEnforcer → TenantLimits → (tenant_id user_id : Text) → ℕ → Type 0
HasRoomAt s limits t u candidate =
    HasRoom limits (user_records_of s (t, u)) (tenant_records_of s t) (active_user_of s (t, u))
      (active_tenant_of s t) candidate

-- A refusal: status 429, with a wait of at least one second.
abbrev pub IsRefusal : QuotaDecision → Type 0
IsRefusal d =
    (d.allowed ≡ false)
    × (d.status_code ≡ 429)
    × (seconds : ℕ) × (d.retry_after_seconds ≡ some seconds)
    × (1 ≤ seconds)

pub ladder-all {ℓ} :
    {D : Type 0} (P : D → Type ℓ) (a b c d e f : Bool) (p q r s t u : D)
    → P p
    → P q
    → P r
    → P s
    → P t
    → P u
    → (x : D)
    → (if a
        then some p
        else if b
        then some q
        else if c
        then some r
        else if d
        then some s
        else if e
        then some t
        else if f
        then some u
        else none)
      ≡ some x
    → P x
ladder-all P a b c d e f p q r s t u hp hq hr hs ht hu x h = ground arith

retry_after-pos :
    (window : ℕ) (rs : List UsageRecord) (now : ℕ) → 1 ≤ window → 1 ≤ retry_after window rs now
unfolding retry_after
retry_after-pos window [] now h = h
retry_after-pos window (r ∷ rs) now h = omega arith

-- Every refusal of the ladder is a 429, with a positive wait if the window is positive.
violation-refusal :
    (window : ℕ) (limits : TenantLimits) (ur tr : List UsageRecord) (ua ta : Active)
    (candidate now : ℕ) (d : QuotaDecision)
    → violation window limits ur tr ua ta candidate now ≡ some d
    → (reason : Reason) × (seconds : ℕ) × (d ≡ refusal reason seconds) × (1 ≤ window → 1 ≤ seconds)
unfolding violation
violation-refusal window limits ur tr ua ta candidate now d h =
    let at_user = retry_after-pos window ur now in
    let at_tenant = retry_after-pos window tr now in
    let one : 1 ≤ window → 1 ≤ 1 = λ w. omega arith in
    let c = limits.concurrent_requests in
    let r = limits.requests_per_minute in
    let i = limits.input_tokens_per_minute in
    let user_wait = retry_after window ur now in
    let tenant_wait = retry_after window tr now in
    ladder-all
      (λ x.
        (reason : Reason) × (seconds : ℕ) × (x ≡ refusal reason seconds)
        × (1 ≤ window → 1 ≤ seconds))
      (reaches c (length ua)) (reaches c (length ta)) (exceeds r (length ur + 1))
      (exceeds r (length tr + 1)) (exceeds i (sum_input_tokens ur + candidate))
      (exceeds i (sum_input_tokens tr + candidate)) (refusal Reason.concurrency_quota_exceeded 1)
      (refusal Reason.tenant_concurrency_quota_exceeded 1)
      (refusal Reason.request_quota_exceeded user_wait)
      (refusal Reason.tenant_request_quota_exceeded tenant_wait)
      (refusal Reason.input_token_quota_exceeded user_wait)
      (refusal Reason.tenant_input_token_quota_exceeded tenant_wait) (_, _, refl, one)
      (_, _, refl, one) (_, _, refl, at_user) (_, _, refl, at_tenant) (_, _, refl, at_user)
      (_, _, refl, at_tenant) d h

violation-IsRefusal :
    (window : ℕ) (limits : TenantLimits) (ur tr : List UsageRecord) (ua ta : Active)
    (candidate now : ℕ) (d : QuotaDecision)
    → 1 ≤ window
    → violation window limits ur tr ua ta candidate now ≡ some d
    → IsRefusal d
violation-IsRefusal window limits ur tr ua ta candidate now d positive h =
    let (reason, seconds, e, wait) =
      violation-refusal window limits ur tr ua ta candidate now d h in
    rw e (refl, refl, seconds, refl, wait positive)

-- The state after a check, in its two cases.
pub check_and_record-outcome :
    (s : InMemoryQuotaEnforcer) (t u : Text) (limits : TenantLimits) (estimate : Option ℤ)
    (rid : Option Text) (uuid : Text) (now : ℕ)
    → let cleaned = pruned s t u now in
      let candidate = candidate_tokens estimate in
      let after = (check_and_record s t u limits estimate rid uuid now).0 in
      (HasRoomAt cleaned limits t u candidate
        × (after ≡ recorded cleaned t u (effective_request_id rid uuid) candidate now))
      ⊎ (after ≡ cleaned)
unfolding check_and_record violation_at
check_and_record-outcome s t u limits estimate rid uuid now =
    let cleaned = pruned s t u now in
    let candidate = candidate_tokens estimate in
    elim (Option-cases (violation_at cleaned limits t u candidate now)) [
      | inl free ↦ inl ((violation-none_iff _ _ _ _ _ _ _ now).0 free, rw (free, settle))
      | inr (d, refused) ↦ inr (rw (refused, settle))
    ]

-- What `check_and_record` does, in its two cases. If the cleaned records and request ids of the user
-- and of the tenant leave room under every limit, the request is admitted and written; otherwise it
-- is refused with 429 and a wait of at least one second, and the state is only cleaned.
pub check_and_record-cases :
    (s : InMemoryQuotaEnforcer) (t u : Text) (limits : TenantLimits) (estimate : Option ℤ)
    (rid : Option Text) (uuid : Text) (now : ℕ)
    → 1 ≤ s.window_seconds
    → let cleaned = pruned s t u now in
      let candidate = candidate_tokens estimate in
      let result = check_and_record s t u limits estimate rid uuid now in
      (HasRoomAt cleaned limits t u candidate
        × (result.1 ≡ quota_allowed_decision)
        × (result.0 ≡ recorded cleaned t u (effective_request_id rid uuid) candidate now))
      ⊎ ((¬ HasRoomAt cleaned limits t u candidate) × IsRefusal result.1 × (result.0 ≡ cleaned))
unfolding check_and_record violation_at
check_and_record-cases s t u limits estimate rid uuid now positive =
    let cleaned = pruned s t u now in
    let candidate = candidate_tokens estimate in
    let room =
      violation-none_iff cleaned.window_seconds limits (user_records_of cleaned (t, u))
        (tenant_records_of cleaned t) (active_user_of cleaned (t, u)) (active_tenant_of cleaned t)
        candidate now in
    elim (Option-cases (violation_at cleaned limits t u candidate now)) [
      | inl free ↦ inl (room.0 free, rw (free, settle), rw (free, settle))
      | inr (d, refused) ↦ inr (
        (λ (w : HasRoomAt cleaned limits t u candidate). cc (room.1 w, refused)),
        rw (refused, settle) (violation-IsRefusal _ _ _ _ _ _ _ _ d (window_positive) refused),
        rw (refused, settle),
      )
    ]
  where
    window_positive : 1 ≤ (pruned s t u now).window_seconds
    window_positive = unfold pruned in positive

-- A check either answers yes and writes the request, or answers no and only cleans.
pub check_and_record-split :
    (s : InMemoryQuotaEnforcer) (t u : Text) (limits : TenantLimits) (estimate : Option ℤ)
    (rid : Option Text) (uuid : Text) (now : ℕ)
    → let result = check_and_record s t u limits estimate rid uuid now in
      ((result.1.allowed ≡ true)
        × (result.0
            ≡ recorded
                (pruned s t u now)
                t
                u
                (effective_request_id rid uuid)
                (candidate_tokens estimate)
                now))
      ⊎ ((result.1.allowed ≡ false) × (result.0 ≡ pruned s t u now))
unfolding check_and_record violation_at
check_and_record-split s t u limits estimate rid uuid now =
    let cleaned = pruned s t u now in
    elim (Option-cases (violation_at cleaned limits t u (candidate_tokens estimate) now)) [
      | inl free ↦ inl (rw (free, settle), rw (free, settle))
      | inr (d, refused) ↦
          let (reason, seconds, e, wait) = violation-refusal _ _ _ _ _ _ _ now d refused in
          inr (rw (refused, settle) (rw e), rw (refused, settle))
    ]

-- A check that answers yes has written the request.
pub admitted-recorded :
    (s : InMemoryQuotaEnforcer) (t u : Text) (limits : TenantLimits) (estimate : Option ℤ)
    (rid : Option Text) (uuid : Text) (now : ℕ)
    → (check_and_record s t u limits estimate rid uuid now).1.allowed ≡ true
    → (check_and_record s t u limits estimate rid uuid now).0
      ≡ recorded
          (pruned s t u now)
          t
          u
          (effective_request_id rid uuid)
          (candidate_tokens estimate)
          now
admitted-recorded s t u limits estimate rid uuid now h =
    elim (check_and_record-split s t u limits estimate rid uuid now) [
      | inl (admitted, after) ↦ after
      | inr (refused, after) ↦ cc (h, refused)
    ]
