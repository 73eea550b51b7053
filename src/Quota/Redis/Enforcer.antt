-- ===== src/Quota/Redis/Enforcer.antt =====
-- The answers of the Redis enforcer, and the slots that a request takes and gives back.
use saa_s_governance_layer_r.Common.{
  ℕ, ◌≤◌, ◌≡◌, ◌≢◌, refl, ◌⊎◌, inl, inr, true, false, ◌||◌, List, [], ◌∷◌, ◌++◌, Option, some, Text,
  text_eq, ◌==◌, ==_iff, ==-refl, ℤ, if◌then◌else◌, arith, Option-cases, is_empty,
}
use saa_s_governance_layer_r.Registry.{TenantLimits}
use saa_s_governance_layer_r.Quota.{QuotaDecision, candidate_tokens, effective_request_id}
use saa_s_governance_layer_r.Quota.Redis.{
  Keys, CheckArgs, ScriptReply, cleaned, refused, added, kept_alive, check_script, ceil_seconds,
  retry_after_for, finish_script,
}
use saa_s_governance_layer_r.Quota.Redis.Methods.{
  RedisQuotaEnforcer, Delivery, keys_of, check_args, check_and_record, finish_request,
  key_ttl_seconds,
}
use saa_s_governance_layer_r.Quota.SortedSets.{Entry, SortedSets, holds, others}
use saa_s_governance_layer_r.Quota.Redis.KeyNames.{kinds-differ}

holds-append :
    (m : Text) (n : ℕ) (before after : List Entry) → holds m (before ++ (m, n) ∷ after) ≡ true
holds-append m n [] after = rw (==-refl m) refl
holds-append m n (x ∷ before) after = ground (arith, holds-append m n before after)

ceil_seconds-pos : (n : ℕ) → 1 ≤ n → 1 ≤ ceil_seconds n
ceil_seconds-pos n h = omega arith

-- A refusal of the script, with a wait of at least one second.
abbrev IsRefusal : ScriptReply → Type 0
IsRefusal reply = (reply.allowed ≡ false) × (1 ≤ reply.retry_after)

module _ (redis : SortedSets) where
  open redis use {Store, zrange}

  holds-zadd :
      (s : Store) (k : Text) (n : ℕ) (m : Text) → holds m (zrange (redis.zadd s k n m) k) ≡ true
  holds-zadd s k n m =
      let (before, after, rest, whole) = redis.zrange-zadd s k n m in
      rw whole (holds-append m n before after)

  zrange-kept_alive :
      (s : Store) (keys : Keys) (ttl : ℕ) (j : Text)
      → zrange (kept_alive redis s keys ttl) j ≡ zrange s j
  unfolding kept_alive
  zrange-kept_alive s keys ttl j = simp redis.zrange-expire

  retry_after_for-pos :
      (s : Store) (a : CheckArgs) (key : Text) → 1 ≤ a.window_ms → 1 ≤ retry_after_for redis s a key
  unfolding retry_after_for
  retry_after_for-pos s a key h = ground arith

  refused-IsRefusal :
      (s : Store) (keys : Keys) (a : CheckArgs) (reply : ScriptReply)
      → 1 ≤ a.window_ms
      → 1 ≤ a.concurrency_ttl_ms
      → refused redis s keys a ≡ some reply
      → IsRefusal reply
  unfolding refused
  refused-IsRefusal s keys a reply window ttl h =
      let wait = λ (key : Text). retry_after_for-pos s a key window in
      let slot = ceil_seconds-pos a.concurrency_ttl_ms ttl in
      ground (
        arith,
        slot,
        wait keys.user_requests,
        wait keys.tenant_requests,
        wait keys.user_input,
        wait keys.tenant_input,
      )

module _ (redis : SortedSets) (e : RedisQuotaEnforcer) where
  open redis use {Store, zrange}

  -- A request holds a slot of its user and a slot of its tenant.
  abbrev pub IsInFlight : Store → (t u rid : Text) → Type 0
  IsInFlight s t u rid =
      (holds rid (zrange s (keys_of e t u).user_concurrency) ≡ true)
      × (holds rid (zrange s (keys_of e t u).tenant_concurrency) ≡ true)

  added-IsInFlight :
      (s : Store) (t u : Text) (a : CheckArgs)
      → IsInFlight
          (kept_alive redis (added redis s (keys_of e t u) a) (keys_of e t u) a.key_ttl_seconds)
          t
          u
          a.request_id
  unfolding added
  added-IsInFlight s t u a =
      let keys = keys_of e t u in
      let apart = (kinds-differ e t u t u).14 in
      (
        rw
            (
              zrange-kept_alive redis (added redis s keys a) keys a.key_ttl_seconds
                  keys.user_concurrency,
              redis.zrange-zadd_other _ keys.tenant_concurrency a.now_ms a.request_id
                  keys.user_concurrency apart,
            )
            (holds-zadd redis _ keys.user_concurrency a.now_ms a.request_id),
        rw
            (zrange-kept_alive redis (added redis s keys a) keys a.key_ttl_seconds
              keys.tenant_concurrency)
            (holds-zadd redis _ keys.tenant_concurrency a.now_ms a.request_id),
      )

  check_script-cases :
      (s : Store) (t u : Text) (limits : TenantLimits) (rid : Text) (c now : ℕ)
      → 1 ≤ e.window_seconds
      → 1 ≤ e.concurrency_ttl_seconds
      → let keys = keys_of e t u in
        let a = check_args e limits rid c now in
        let result = check_script redis s keys a in
        ((result.1.allowed ≡ true) × IsInFlight result.0 t u rid)
        ⊎ (IsRefusal result.1 × (result.0 ≡ cleaned redis s keys a))
  unfolding check_script check_args
  check_script-cases s t u limits rid c now window ttl =
      let keys = keys_of e t u in
      let a = check_args e limits rid c now in
      let clean = cleaned redis s keys a in
      elim (Option-cases (refused redis clean keys a)) [
        | inl free ↦
            inl
              (rw (free, check_script) refl, rw (free, check_script) (added-IsInFlight clean t u a))
        | inr (reply, stop) ↦ inr (
          rw (stop, check_script)
              (refused-IsRefusal redis clean keys a reply (omega arith) (omega arith) stop),
          rw (stop, check_script) refl,
        )
      ]

  -- The three ends of a call: admitted, refused by the script, or failed.
  abbrev pub IsAnswer :
      Store → (t u id : Text) → CheckArgs → Delivery → (after : Store) → QuotaDecision → Type 0
  IsAnswer s t u id args sent after d =
      ((d.allowed ≡ true)
        × (d.status_code ≡ 200)
        × (sent ≡ Delivery.delivered)
        × IsInFlight after t u id)
      ⊎ ((d.allowed ≡ false)
          × (d.status_code ≡ 429)
          × ((seconds : ℕ) × (d.retry_after_seconds ≡ some seconds) × (1 ≤ seconds))
          × (sent ≡ Delivery.delivered)
          × (after ≡ cleaned redis s (keys_of e t u) args))
      ⊎ ((d.allowed ≡ false)
          × (d.status_code ≡ 503)
          × (d.retry_after_seconds ≡ some 1)
          × (sent ≢ Delivery.delivered)
          × (sent ≡ Delivery.unreached → after ≡ s))

  -- Every call of `check_and_record` ends in one of three ways. It admits with 200, the script's answer
  -- came back, and the request holds its two slots. Or it refuses with 429 and a wait of at least one
  -- second, the answer came back, and the store is only cleaned. Or the call failed: it refuses with
  -- 503 and a wait of one second, and a script that did not run left the store as it was.
  pub check_and_record_answers :
      (s : Store) (t u : Text) (limits : TenantLimits) (estimate : Option ℤ) (rid : Option Text)
      (uuid : Text) (now : ℕ) (sent : Delivery)
      → 1 ≤ e.window_seconds
      → 1 ≤ e.concurrency_ttl_seconds
      → let id = effective_request_id rid uuid in
        let result = check_and_record redis e s t u limits estimate rid uuid now sent in
        IsAnswer s t u id
          (check_args e limits id (candidate_tokens estimate) now)
          sent
          result.0
          result.1
  unfolding check_and_record
  check_and_record_answers s t u limits estimate rid uuid now Delivery.delivered window ttl =
      let id = effective_request_id rid uuid in
      elim (check_script-cases s t u limits id (candidate_tokens estimate) now window ttl) [
        | inl (free, slots) ↦ inl (rw free refl, rw free refl, refl, slots)
        | inr ((stop, wait), clean) ↦
            inr (inl (rw stop refl, rw stop refl, (_, rw stop refl, wait), refl, clean))
      ]
  check_and_record_answers s t u limits estimate rid uuid now Delivery.unreached window ttl =
      inr (inr (refl, refl, refl, (λ same. cc same), (λ same. refl)))
  check_and_record_answers s t u limits estimate rid uuid now Delivery.reply_lost window ttl =
      inr (inr (refl, refl, refl, (λ same. cc same), (λ same. cc same)))

  removed :
      (s : Store) (t u rid j : Text)
      → is_empty rid ≡ false
      → let keys = keys_of e t u in
        zrange
          (finish_script redis s keys.user_concurrency keys.tenant_concurrency rid
            (key_ttl_seconds e))
          j
        ≡ (if (keys.user_concurrency == j) || (keys.tenant_concurrency == j)
            then others rid (zrange s j)
            else zrange s j)
  unfolding finish_script
  removed s t u rid j named =
      let keys = keys_of e t u in
      let uk = keys.user_concurrency in
      let tk = keys.tenant_concurrency in
      let ttl = key_ttl_seconds e in
      rw
        (
          named,
          finish_script,
          redis.zrange-expire _ tk ttl j,
          redis.zrange-expire _ uk ttl j,
          redis.zrange-zrem (redis.zrem s uk rid) tk rid j,
          redis.zrange-zrem s uk rid j,
        )
        (ground (arith, (kinds-differ e t u t u).14, ==_iff uk j, ==_iff tk j, ==_iff tk uk))

  -- A call of `finish_request` that runs, with an id that is not empty, takes that id's entry from the
  -- concurrency keys of the user and of the tenant, and changes nothing else at any key.
  pub finish_request-zrange :
      (s : Store) (t u rid : Text) (sent : Delivery) (j : Text)
      → is_empty rid ≡ false
      → sent ≢ Delivery.unreached
      → let keys = keys_of e t u in
        zrange (finish_request redis e s t u (some rid) sent) j ≡ (
          if (keys.user_concurrency == j) || (keys.tenant_concurrency == j)
          then others rid (zrange s j)
          else zrange s j)
  unfolding finish_request
  finish_request-zrange s t u rid Delivery.delivered j named ran = removed s t u rid j named
  finish_request-zrange s t u rid Delivery.reply_lost j named ran = removed s t u rid j named
  finish_request-zrange s t u rid Delivery.unreached j named ran = absurd (ran refl)
