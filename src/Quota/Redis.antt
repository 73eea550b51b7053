-- ===== src/Quota/Redis.antt =====
-- quota_enforcer.py: the three Lua scripts of RedisQuotaEnforcer, over the sorted sets of Redis. A
-- script is atomic in Redis, so it is one step here.
pub mod Methods
pub mod KeyNames
pub mod Effects
pub mod Limits
pub mod Enforcer
mod Tests
use saa_s_governance_layer_r.Common.{
  ℕ, ◌+◌, ◌-◌, ◌*◌, ◌/◌, ◌≡◌, Bool, true, false, not, ◌&&◌, ◌||◌, List, [], ◌∷◌, ◌++◌, Option, none,
  some, Text, codes, text_eq, ◌==◌, ℤ, pos, negsuc, length, filter, any, all, is_empty, leb, ltb,
  nat_beq, max, map, if◌then◌else◌, show, read, is_digit, reverse,
}
use saa_s_governance_layer_r.Reason.{Reason}
use saa_s_governance_layer_r.Registry.{TenantLimits}
use saa_s_governance_layer_r.Quota.{QuotaDecision, candidate_tokens, effective_request_id}
use saa_s_governance_layer_r.Quota.SortedSets.{Entry, at_most, at_least, others, holds, SortedSets}

-- KEYS of the scripts
pub record Keys : Type 0 where
  pub user_requests : Text
  pub user_input : Text
  pub tenant_requests : Text
  pub tenant_input : Text
  pub user_concurrency : Text
  pub tenant_concurrency : Text

-- The integer a - b.
abbrev pub minus : ℕ → ℕ → ℤ
minus a b = if leb b a then pos (a - b) else negsuc (b - a - 1)

-- `string.match(member, '|(%d+)$')`, as a number
unfoldable pub token_of : Text → Option ℕ
token_of [] = none
token_of (c ∷ s) =
    let later = token_of s in
    if nat_beq c b'|' && not (is_empty s) && all is_digit s then some (read s) else later

unfoldable pub sum_tokens : List Text → ℕ
unfolding token_of
sum_tokens [] = 0
sum_tokens (m ∷ ms) = (elim (token_of m) [ none ↦ 0 | some n ↦ n ]) + sum_tokens ms

-- `math.ceil(n / 1000)`
abbrev pub ceil_seconds : ℕ → ℕ
ceil_seconds n = (n + 999) / 1000

-- What a script answers.
pub record ScriptReply : Type 0 where
  pub allowed : Bool
  pub reason : Reason
  pub retry_after : ℕ

-- ARGV of the check.
pub record CheckArgs : Type 0 where
  pub now_ms : ℕ
  pub window_ms : ℕ
  pub concurrency_ttl_ms : ℕ
  pub request_id : Text
  pub candidate_input_tokens : ℕ
  pub user_request_limit : ℤ
  pub user_input_limit : ℤ
  pub user_concurrency_limit : ℤ
  pub tenant_request_limit : ℤ
  pub tenant_input_limit : ℤ
  pub tenant_concurrency_limit : ℤ
  pub key_ttl_seconds : ℕ

-- `limit >= 0 and n >= limit`, and the same with `>`
abbrev pub reaches_arg : ℤ → ℕ → Bool
reaches_arg (pos limit) n = leb limit n
reaches_arg (negsuc m) n = false

abbrev pub exceeds_arg : ℤ → ℕ → Bool
exceeds_arg (pos limit) n = ltb limit n
exceeds_arg (negsuc m) n = false

-- `_limit_arg`
unfoldable pub limit_arg : Option ℕ → ℤ
limit_arg none = negsuc 0
limit_arg (some limit) = pos limit

abbrev pub refusal : Reason → ℕ → Option ScriptReply
refusal reason retry_after =
    some (record { allowed = false; reason = reason; retry_after = retry_after })

module _ (redis : SortedSets) where
  open redis use {Store}

  -- `retry_after_for`
  unfoldable pub retry_after_for : Store → CheckArgs → Text → ℕ
  retry_after_for s a key = elim (redis.zrange s key) [
    | [] ↦ ceil_seconds a.window_ms
    | oldest ∷ rest ↦ ceil_seconds (max 1 (a.window_ms + oldest.1 - a.now_ms))
  ]

  -- The six ZREMRANGEBYSCORE at the head of the check.
  unfoldable pub cleaned : Store → Keys → CheckArgs → Store
  cleaned s keys a =
      let cutoff = minus a.now_ms a.window_ms in
      let stale = minus a.now_ms a.concurrency_ttl_ms in
      let s1 = redis.zremrangebyscore s keys.user_requests 0 cutoff in
      let s2 = redis.zremrangebyscore s1 keys.user_input 0 cutoff in
      let s3 = redis.zremrangebyscore s2 keys.tenant_requests 0 cutoff in
      let s4 = redis.zremrangebyscore s3 keys.tenant_input 0 cutoff in
      let s5 = redis.zremrangebyscore s4 keys.user_concurrency 0 stale in
      redis.zremrangebyscore s5 keys.tenant_concurrency 0 stale

  -- `zset_sum_tokens`
  unfoldable pub zset_sum_tokens : Store → CheckArgs → Text → ℕ
  unfolding sum_tokens
  zset_sum_tokens s a key =
      sum_tokens (redis.zrangebyscore s key (minus (a.now_ms + 1) a.window_ms) a.now_ms)

  -- The six tests of the check, in order.
  unfoldable pub refused : Store → Keys → CheckArgs → Option ScriptReply
  refused s keys a =
      if reaches_arg a.user_concurrency_limit (redis.zcard s keys.user_concurrency)
      then refusal Reason.concurrency_quota_exceeded (ceil_seconds a.concurrency_ttl_ms)
      else if reaches_arg a.tenant_concurrency_limit (redis.zcard s keys.tenant_concurrency)
      then refusal Reason.tenant_concurrency_quota_exceeded (ceil_seconds a.concurrency_ttl_ms)
      else if exceeds_arg a.user_request_limit (redis.zcard s keys.user_requests + 1)
      then refusal Reason.request_quota_exceeded (retry_after_for s a keys.user_requests)
      else if exceeds_arg a.tenant_request_limit (redis.zcard s keys.tenant_requests + 1)
      then refusal Reason.tenant_request_quota_exceeded (retry_after_for s a keys.tenant_requests)
      else if exceeds_arg a.user_input_limit
          (zset_sum_tokens s a keys.user_input + a.candidate_input_tokens)
      then refusal Reason.input_token_quota_exceeded (retry_after_for s a keys.user_input)
      else if exceeds_arg a.tenant_input_limit
          (zset_sum_tokens s a keys.tenant_input + a.candidate_input_tokens)
      then refusal Reason.tenant_input_token_quota_exceeded (retry_after_for s a keys.tenant_input)
      else none

  -- `request_id .. '|' .. tostring(candidate_input_tokens)`
  abbrev pub input_member : CheckArgs → Text
  input_member a = a.request_id ++ b'|' ∷ redis.tostring a.candidate_input_tokens

  -- The six ZADD of an admitted request.
  unfoldable pub added : Store → Keys → CheckArgs → Store
  added s keys a =
      let s1 = redis.zadd s keys.user_requests a.now_ms a.request_id in
      let s2 = redis.zadd s1 keys.tenant_requests a.now_ms a.request_id in
      let s3 = redis.zadd s2 keys.user_input a.now_ms (input_member a) in
      let s4 = redis.zadd s3 keys.tenant_input a.now_ms (input_member a) in
      let s5 = redis.zadd s4 keys.user_concurrency a.now_ms a.request_id in
      redis.zadd s5 keys.tenant_concurrency a.now_ms a.request_id

  -- The six EXPIRE behind them.
  unfoldable pub kept_alive : Store → Keys → ℕ → Store
  kept_alive s keys ttl =
      let s1 = redis.expire s keys.user_requests ttl in
      let s2 = redis.expire s1 keys.user_input ttl in
      let s3 = redis.expire s2 keys.tenant_requests ttl in
      let s4 = redis.expire s3 keys.tenant_input ttl in
      let s5 = redis.expire s4 keys.user_concurrency ttl in
      redis.expire s5 keys.tenant_concurrency ttl

  -- `_REDIS_CHECK_AND_RECORD_LUA`
  unfoldable pub check_script : Store → Keys → CheckArgs → Store × ScriptReply
  check_script s keys a =
      let clean = cleaned s keys a in
      elim (refused clean keys a) [
        | some reply ↦ (clean, reply)
        | none ↦ (
          kept_alive (added clean keys a) keys a.key_ttl_seconds,
          record { allowed = true; reason = Reason.quota_allowed; retry_after = 0 },
        )
      ]

  -- `if oldest[1] ~= nil then redis.call('ZREM', key, oldest[1]) end`
  unfoldable pub zrem_first : Store → Text → List Entry → Store
  zrem_first s key [] = s
  zrem_first s key (oldest ∷ rest) = redis.zrem s key oldest.0

  -- `_REDIS_FINISH_LUA`; both oldest members are read before either is removed.
  unfoldable pub finish_script :
      Store → (user_concurrency tenant_concurrency request_id : Text) → (ttl : ℕ) → Store
  unfolding zrem_first
  finish_script s uk tk request_id ttl =
      let removed =
        if is_empty request_id
        then zrem_first (zrem_first s uk (redis.zrange s uk)) tk (redis.zrange s tk)
        else redis.zrem (redis.zrem s uk request_id) tk request_id in
      redis.expire (redis.expire removed uk ttl) tk ttl

  -- `_REDIS_HEARTBEAT_LUA`
  unfoldable pub heartbeat_script :
      Store
      → (user_concurrency tenant_concurrency : Text) → (now_ms : ℕ) → (request_id : Text)
      → (ttl : ℕ) → Store
  heartbeat_script s uk tk now_ms request_id ttl =
      let beaten = redis.zadd_xx (redis.zadd_xx s uk now_ms request_id) tk now_ms request_id in
      redis.expire (redis.expire beaten uk ttl) tk ttl
