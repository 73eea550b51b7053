-- ===== src/Quota.antt =====
-- quota_enforcer.py: what both enforcers share, the decision and the readings of a limit; and the
-- protocol between an enforcer and the gateway, with the laws the gateway relies on.
pub mod Memory
pub mod SortedSets
pub mod Redis
pub mod Create
use saa_s_governance_layer_r.Common.{
  ℕ, ◌+◌, ◌≤◌, Bool, true, false, List, [], ◌∷◌, Option, none, some, Text, ℤ, pos, negsuc, leb, ltb,
  ◌≡◌,
}
use saa_s_governance_layer_r.Reason.{Reason}
use saa_s_governance_layer_r.Registry.{TenantLimits}

pub record QuotaDecision : Type 0 where
  pub allowed : Bool
  pub status_code : ℕ
  pub reason : Reason
  pub retry_after_seconds : Option ℕ

-- A time is in milliseconds.
pub record UsageRecord : Type 0 where
  pub timestamp : ℕ
  pub input_tokens : ℕ
  pub output_tokens : ℕ

-- `max(0, estimated_input_tokens or 0)`
unfoldable pub candidate_tokens : Option ℤ → ℕ
candidate_tokens none = 0
candidate_tokens (some (pos n)) = n
candidate_tokens (some (negsuc n)) = 0

-- `request_id or str(uuid4())`
unfoldable pub effective_request_id : Option Text → Text → Text
effective_request_id none uuid = uuid
effective_request_id (some []) uuid = uuid
effective_request_id (some (c ∷ s)) uuid = c ∷ s

-- `limit is not None and n >= limit`
abbrev pub reaches : Option ℕ → ℕ → Bool
reaches none n = false
reaches (some limit) n = leb limit n

-- `limit is not None and n > limit`
abbrev pub exceeds : Option ℕ → ℕ → Bool
exceeds none n = false
exceeds (some limit) n = ltb limit n

-- A count is within a limit, if there is one.
abbrev pub AtMost : Option ℕ → ℕ → Type 0
AtMost none n = Unit
AtMost (some limit) n = n ≤ limit

-- The protocol. `check_and_record` has the request's id and the time of the call; `in_flight` says
-- that a slot is held under an id, for its user or for its tenant.
pub record QuotaEnforcer : Type 1 where
  pub State : Type 0
  pub check_and_record :
      State
      → (tenant_id user_id : Text) → TenantLimits
      → Option ℤ
      → (request_id : Text) → (now : ℕ) → State × QuotaDecision
  pub finish_request : State → (tenant_id user_id request_id : Text) → State
  pub in_flight : State → (tenant_id user_id request_id : Text) → Bool
  pub admitted :
      (s : State) (t u : Text) (limits : TenantLimits) (estimate : Option ℤ) (rid : Text) (now : ℕ)
      → (check_and_record s t u limits estimate rid now).1.allowed ≡ true
      → in_flight (check_and_record s t u limits estimate rid now).0 t u rid ≡ true
  pub finished : (s : State) (t u rid : Text) → in_flight (finish_request s t u rid) t u rid ≡ false
