-- ===== src/Quota/Memory.antt =====
-- quota_enforcer.py: InMemoryQuotaEnforcer, method by method. A `defaultdict` that is read has the
-- default written, as in Python.
mod Entries
pub mod Limits
pub mod History
pub mod Window
pub mod Sliding
pub mod Isolation
pub mod Slots
pub mod Enforcer
mod Tests
use saa_s_governance_layer_r.Common.{
  ℕ, ◌+◌, ◌-◌, ◌*◌, ◌/◌, Bool, true, false, List, [], ◌∷◌, ◌++◌, Option, none, some, Text, text_eq,
  pair_eq, ℤ, Dict, lookup, insert, erase, length, get_or, leb, max, if◌then◌else◌,
}
use saa_s_governance_layer_r.Reason.{Reason}
use saa_s_governance_layer_r.Registry.{TenantLimits}
use saa_s_governance_layer_r.Quota.{
  QuotaDecision, UsageRecord, candidate_tokens, effective_request_id, reaches, exceeds,
}

abbrev pub UserKey : Type 0
UserKey = Text × Text

-- Request ids in flight, with the time of their start.
abbrev pub Active : Type 0
Active = Dict Text ℕ

pub record InMemoryQuotaEnforcer : Type 0 where
  pub window_seconds : ℕ
  pub concurrency_ttl_seconds : ℕ
  pub user_records : Dict UserKey (List UsageRecord)
  pub tenant_records : Dict Text (List UsageRecord)
  pub active_user : Dict UserKey Active
  pub active_tenant : Dict Text Active

abbrev pub create : ℕ → ℕ → InMemoryQuotaEnforcer
create window ttl = record {
  window_seconds = window;
  concurrency_ttl_seconds = ttl;
  user_records = [];
  tenant_records = [];
  active_user = [];
  active_tenant = [];
}

-- Reading a `defaultdict`.
abbrev pub user_records_of : InMemoryQuotaEnforcer → UserKey → List UsageRecord
user_records_of s k = get_or (lookup k s.user_records) []

abbrev pub tenant_records_of : InMemoryQuotaEnforcer → Text → List UsageRecord
tenant_records_of s t = get_or (lookup t s.tenant_records) []

abbrev pub active_user_of : InMemoryQuotaEnforcer → UserKey → Active
active_user_of s k = get_or (lookup k s.active_user) []

abbrev pub active_tenant_of : InMemoryQuotaEnforcer → Text → Active
active_tenant_of s t = get_or (lookup t s.active_tenant) []

-- `_drop_expired_records`: `timestamp <= now - window`, from the oldest on, until one is young.
unfoldable pub drop_expired_records : ℕ → ℕ → List UsageRecord → List UsageRecord
drop_expired_records window_seconds now [] = []
drop_expired_records window_seconds now (r ∷ rs) =
    if leb (r.timestamp + window_seconds * 1000) now
    then drop_expired_records window_seconds now rs
    else r ∷ rs

unfoldable pub stale_ids : ℕ → ℕ → Active → List Text
stale_ids ttl now [] = []
stale_ids ttl now ((rid, timestamp) ∷ active) =
    if leb (timestamp + ttl * 1000) now
    then rid ∷ stale_ids ttl now active
    else stale_ids ttl now active

unfoldable pub pop_all : List Text → Active → Active
pop_all [] active = active
pop_all (rid ∷ rids) active = pop_all rids (erase rid active)

unfoldable pub drop_stale_concurrency : ℕ → ℕ → Active → Active
unfolding stale_ids pop_all
drop_stale_concurrency ttl now active = pop_all (stale_ids ttl now active) active

-- `_retry_after`; `int` truncates, and a negative value is raised to 1.
unfoldable pub retry_after : ℕ → List UsageRecord → ℕ → ℕ
retry_after window_seconds [] now = window_seconds
retry_after window_seconds (r ∷ rs) now = max 1 ((window_seconds * 1000 + r.timestamp - now) / 1000)

unfoldable pub sum_input_tokens : List UsageRecord → ℕ
sum_input_tokens [] = 0
sum_input_tokens (r ∷ rs) = r.input_tokens + sum_input_tokens rs

-- The state after the four cleaning calls at the head of `check_and_record`.
unfoldable pub pruned : InMemoryQuotaEnforcer → Text → Text → ℕ → InMemoryQuotaEnforcer
pruned s tenant_id user_id now =
    let k : UserKey = (tenant_id, user_id) in
    record s {
      user_records =
          insert k (drop_expired_records s.window_seconds now (user_records_of s k)) s.user_records;
      tenant_records =
          insert tenant_id
            (drop_expired_records s.window_seconds now (tenant_records_of s tenant_id))
            s.tenant_records;
      active_user =
          insert k (drop_stale_concurrency s.concurrency_ttl_seconds now (active_user_of s k))
            s.active_user;
      active_tenant =
          insert tenant_id
            (drop_stale_concurrency s.concurrency_ttl_seconds now (active_tenant_of s tenant_id))
            s.active_tenant;
    }

abbrev pub refusal : Reason → ℕ → QuotaDecision
refusal reason seconds = record {
  allowed = false;
  status_code = 429;
  reason = reason;
  retry_after_seconds = some seconds;
}

abbrev refuse : Reason → ℕ → Option QuotaDecision
refuse reason seconds = some (refusal reason seconds)

-- The six tests, in order: the first that fails gives the refusal.
unfoldable pub violation :
    ℕ
    → TenantLimits
    → (user_records tenant_records : List UsageRecord) → (active_user active_tenant : Active)
    → (candidate now : ℕ) → Option QuotaDecision
violation window limits ur tr ua ta candidate now =
    if reaches limits.concurrent_requests (length ua)
    then refuse Reason.concurrency_quota_exceeded 1
    else if reaches limits.concurrent_requests (length ta)
    then refuse Reason.tenant_concurrency_quota_exceeded 1
    else if exceeds limits.requests_per_minute (length ur + 1)
    then refuse Reason.request_quota_exceeded (retry_after window ur now)
    else if exceeds limits.requests_per_minute (length tr + 1)
    then refuse Reason.tenant_request_quota_exceeded (retry_after window tr now)
    else if exceeds limits.input_tokens_per_minute (sum_input_tokens ur + candidate)
    then refuse Reason.input_token_quota_exceeded (retry_after window ur now)
    else if exceeds limits.input_tokens_per_minute (sum_input_tokens tr + candidate)
    then refuse Reason.tenant_input_token_quota_exceeded (retry_after window tr now)
    else none

-- The tests on the entries of one user and tenant.
unfoldable pub violation_at :
    InMemoryQuotaEnforcer
    → TenantLimits
    → (tenant_id user_id : Text) → (candidate now : ℕ) → Option QuotaDecision
violation_at s limits tenant_id user_id candidate now =
    violation s.window_seconds limits (user_records_of s (tenant_id, user_id))
      (tenant_records_of s tenant_id) (active_user_of s (tenant_id, user_id))
      (active_tenant_of s tenant_id) candidate now

-- The writes of an admitted request.
unfoldable pub recorded :
    InMemoryQuotaEnforcer
    → (tenant_id user_id request_id : Text) → (candidate now : ℕ) → InMemoryQuotaEnforcer
recorded s tenant_id user_id request_id candidate now =
    let k : UserKey = (tenant_id, user_id) in
    let entry : UsageRecord = record {
      timestamp = now;
      input_tokens = candidate;
      output_tokens = 0;
    } in
    record s {
      user_records = insert k (user_records_of s k ++ entry ∷ []) s.user_records;
      tenant_records =
          insert tenant_id (tenant_records_of s tenant_id ++ entry ∷ []) s.tenant_records;
      active_user = insert k (insert request_id now (active_user_of s k)) s.active_user;
      active_tenant =
          insert tenant_id (insert request_id now (active_tenant_of s tenant_id)) s.active_tenant;
    }

abbrev pub quota_allowed_decision : QuotaDecision
quota_allowed_decision = record {
  allowed = true;
  status_code = 200;
  reason = Reason.quota_allowed;
  retry_after_seconds = none;
}

-- A decision on a cleaned state.
unfoldable pub settle :
    InMemoryQuotaEnforcer
    → TenantLimits
    → (tenant_id user_id request_id : Text) → (candidate now : ℕ)
    → InMemoryQuotaEnforcer × QuotaDecision
settle s limits tenant_id user_id request_id candidate now =
    elim (violation_at s limits tenant_id user_id candidate now) [
      | some refused ↦ (s, refused)
      | none ↦ (recorded s tenant_id user_id request_id candidate now, quota_allowed_decision)
    ]

unfoldable pub check_and_record :
    InMemoryQuotaEnforcer
    → (tenant_id user_id : Text) → TenantLimits
    → Option ℤ
    → Option Text
    → (uuid : Text) → (now : ℕ) → InMemoryQuotaEnforcer × QuotaDecision
unfolding settle
check_and_record s tenant_id user_id limits estimated_input_tokens request_id uuid now =
    settle (pruned s tenant_id user_id now) limits tenant_id user_id
      (effective_request_id request_id uuid) (candidate_tokens estimated_input_tokens) now

-- `_pop_one` removes the first key.
unfoldable pub pop_one : Active → Active
pop_one [] = []
pop_one ((rid, timestamp) ∷ active) = erase rid ((rid, timestamp) ∷ active)

unfoldable pub release : Option Text → Active → Active
unfolding pop_one
release none active = pop_one active
release (some rid) active = erase rid active

unfoldable pub finish_request :
    InMemoryQuotaEnforcer → (tenant_id user_id : Text) → Option Text → InMemoryQuotaEnforcer
unfolding release
finish_request s tenant_id user_id request_id =
    let k : UserKey = (tenant_id, user_id) in
    record s {
      active_user = insert k (release request_id (active_user_of s k)) s.active_user;
      active_tenant =
          insert tenant_id (release request_id (active_tenant_of s tenant_id)) s.active_tenant;
    }
