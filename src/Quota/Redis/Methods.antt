-- ===== src/Quota/Redis/Methods.antt =====
-- quota_enforcer.py: the methods of RedisQuotaEnforcer around its scripts.
use saa_s_governance_layer_r.Common.{
  ℕ, ◌+◌, ◌*◌, true, false, [], ◌∷◌, ◌++◌, Option, none, some, Text, codes, text_eq, ℤ, nat_beq,
  max, if◌then◌else◌, reverse,
}
use saa_s_governance_layer_r.Reason.{Reason}
use saa_s_governance_layer_r.Registry.{TenantLimits}
use saa_s_governance_layer_r.Quota.{QuotaDecision, candidate_tokens, effective_request_id}
use saa_s_governance_layer_r.Quota.SortedSets.{SortedSets}
use saa_s_governance_layer_r.Quota.Redis.{
  Keys, ScriptReply, CheckArgs, check_script, finish_script, heartbeat_script, limit_arg,
}

-- The fields of the enforcer that its methods read; the rest follows from them.
pub record RedisQuotaEnforcer : Type 0 where
  pub window_seconds : ℕ
  pub concurrency_ttl_seconds : ℕ
  pub key_prefix : Text

abbrev pub key_ttl_seconds : RedisQuotaEnforcer → ℕ
key_ttl_seconds e = max e.window_seconds e.concurrency_ttl_seconds + 60

rstrip_colons : Text → Text
rstrip_colons [] = []
rstrip_colons (c ∷ s) = if nat_beq c b':' then rstrip_colons s else c ∷ s

-- `__init__`, without the connection
unfoldable pub create : (window_seconds : ℕ) → (key_prefix : Text) → (ttl : ℕ) → RedisQuotaEnforcer
unfolding rstrip_colons
create window_seconds key_prefix ttl = record {
  window_seconds = window_seconds;
  concurrency_ttl_seconds = ttl;
  key_prefix = reverse (rstrip_colons (reverse key_prefix));
}

-- `_keys` and `_concurrency_keys`
unfoldable pub keys_of : RedisQuotaEnforcer → (tenant_id user_id : Text) → Keys
keys_of e t u =
    let user_base = e.key_prefix ++ (codes ":quota:user:" ++ (t ++ b':' ∷ u)) in
    let tenant_base = e.key_prefix ++ (codes ":quota:tenant:" ++ t) in
    let concurrency_base = e.key_prefix ++ codes ":concurrency" in
    record {
      user_requests = user_base ++ codes ":requests";
      user_input = user_base ++ codes ":input_tokens";
      tenant_requests = tenant_base ++ codes ":requests";
      tenant_input = tenant_base ++ codes ":input_tokens";
      user_concurrency = concurrency_base ++ (codes ":user:" ++ (t ++ b':' ∷ u));
      tenant_concurrency = concurrency_base ++ (codes ":tenant:" ++ t);
    }

-- How a call of `evalsha` ends: with its answer, or with an exception before or after the script ran.
pub data Delivery : Type 0 where
  delivered unreached reply_lost : Delivery

abbrev pub backend_unavailable : QuotaDecision
backend_unavailable = record {
  allowed = false;
  status_code = 503;
  reason = Reason.quota_backend_unavailable;
  retry_after_seconds = some 1;
}

abbrev pub decision_of : ScriptReply → QuotaDecision
decision_of reply =
    if reply.allowed
    then record {
      allowed = true;
      status_code = 200;
      reason = reply.reason;
      retry_after_seconds = none;
    }
    else record {
      allowed = false;
      status_code = 429;
      reason = reply.reason;
      retry_after_seconds = some reply.retry_after;
    }

-- `args` of `check_and_record`
unfoldable pub check_args : RedisQuotaEnforcer → TenantLimits → Text → ℕ → ℕ → CheckArgs
unfolding limit_arg
check_args e limits request_id candidate now_ms = record {
  now_ms = now_ms;
  window_ms = e.window_seconds * 1000;
  concurrency_ttl_ms = e.concurrency_ttl_seconds * 1000;
  request_id = request_id;
  candidate_input_tokens = candidate;
  user_request_limit = limit_arg limits.requests_per_minute;
  user_input_limit = limit_arg limits.input_tokens_per_minute;
  user_concurrency_limit = limit_arg limits.concurrent_requests;
  tenant_request_limit = limit_arg limits.requests_per_minute;
  tenant_input_limit = limit_arg limits.input_tokens_per_minute;
  tenant_concurrency_limit = limit_arg limits.concurrent_requests;
  key_ttl_seconds = key_ttl_seconds e;
}

module _ (redis : SortedSets) (e : RedisQuotaEnforcer) where
  open redis use {Store}

  unfoldable pub check_and_record :
      Store
      → (tenant_id user_id : Text) → TenantLimits
      → Option ℤ
      → Option Text
      → (uuid : Text) → (now_ms : ℕ) → Delivery
      → Store × QuotaDecision
  check_and_record s t u limits estimated_input_tokens request_id uuid now_ms delivery =
      let result = check_script redis s (keys_of e t u) (
        check_args e limits (effective_request_id request_id uuid)
          (candidate_tokens estimated_input_tokens) now_ms) in
      elim delivery [
        | delivered ↦ (result.0, decision_of result.1)
        | unreached ↦ (s, backend_unavailable)
        | reply_lost ↦ (result.0, backend_unavailable)
      ]

  abbrev pub or_empty : Option Text → Text
  or_empty none = []
  or_empty (some request_id) = request_id

  unfoldable pub finish_request :
      Store → (tenant_id user_id : Text) → Option Text → Delivery → Store
  finish_request s t u request_id delivery =
      let keys = keys_of e t u in
      let result =
        finish_script redis s keys.user_concurrency keys.tenant_concurrency (or_empty request_id)
          (key_ttl_seconds e) in
      elim delivery [ unreached ↦ s | _ ↦ result ]

  unfoldable pub heartbeat_request :
      Store → (tenant_id user_id request_id : Text) → (now_ms : ℕ) → Delivery → Store
  heartbeat_request s t u request_id now_ms delivery =
      let keys = keys_of e t u in
      let result =
        heartbeat_script redis s keys.user_concurrency keys.tenant_concurrency now_ms request_id
          (key_ttl_seconds e) in
      elim delivery [ unreached ↦ s | _ ↦ result ]
