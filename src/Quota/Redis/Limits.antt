-- ===== src/Quota/Redis/Limits.antt =====
-- The limits along any history of calls of the Redis enforcer, lost calls and lapsed keys included.
use saa_s_governance_layer_r.Common.{
  ℕ, ◌+◌, ◌≤◌, ◌≡◌, refl, sym, subst, ◌⊎◌, inl, inr, true, false, List, [], ◌∷◌, Option, none, some,
  Text, text_eq, ◌==◌, ==_iff, ℤ, arith, Bool-cases, Option-cases, All,
}
use saa_s_governance_layer_r.Registry.{TenantLimits}
use saa_s_governance_layer_r.Quota.{AtMost, candidate_tokens, effective_request_id}
use saa_s_governance_layer_r.Quota.Memory.Limits.{AtMost-mono}
use saa_s_governance_layer_r.Quota.Redis.{
  Keys, CheckArgs, reaches_arg, exceeds_arg, limit_arg, cleaned, refused, added, kept_alive,
  check_script,
}
use saa_s_governance_layer_r.Quota.Redis.Methods.{
  RedisQuotaEnforcer, Delivery, keys_of, check_args, check_and_record, finish_request,
  heartbeat_request,
}
use saa_s_governance_layer_r.Quota.SortedSets.{SortedSets}
use saa_s_governance_layer_r.Quota.Redis.KeyNames.{
  Kind, user_requests, tenant_requests, user_concurrency, tenant_concurrency, key_at, IsPlain, hit,
  hit-false, hits-key_at, key_at-injective,
}
use saa_s_governance_layer_r.Quota.Redis.Effects.{
  card, card-cleaned, card-added, card-kept_alive, card-finish_script, card-heartbeat_script,
  card-lapse,
}

-- The limit on the members of a kind of key.
abbrev pub limit_of : Kind → TenantLimits → Option ℕ
limit_of user_requests limits = limits.requests_per_minute
limit_of tenant_requests limits = limits.requests_per_minute
limit_of user_concurrency limits = limits.concurrent_requests
limit_of tenant_concurrency limits = limits.concurrent_requests

reaches_arg_lem : (l : Option ℕ) (n : ℕ) → reaches_arg (limit_arg l) n ≡ false → AtMost l (n + 1)
unfolding limit_arg
reaches_arg_lem none n h = tt
reaches_arg_lem (some l) n h = ground arith

exceeds_arg_lem : (l : Option ℕ) (n : ℕ) → exceeds_arg (limit_arg l) n ≡ false → AtMost l n
unfolding limit_arg
exceeds_arg_lem none n h = tt
exceeds_arg_lem (some l) n h = ground arith

hit-true : (key j : Text) → (key == j) ≡ true → hit key j ≡ 1
hit-true key j h = rw h refl

module _ (redis : SortedSets) (e : RedisQuotaEnforcer) where
  open redis use {Store}

  -- The number of members at one of a user's keys.
  abbrev pub card_at : Kind → Store → (t u : Text) → ℕ
  card_at k s t u = card redis (key_at k (keys_of e t u)) s

  refused-tests :
      (s : Store) (keys : Keys) (a : CheckArgs)
      → refused redis s keys a ≡ none
      → (reaches_arg a.user_concurrency_limit (redis.zcard s keys.user_concurrency) ≡ false)
        × (reaches_arg a.tenant_concurrency_limit (redis.zcard s keys.tenant_concurrency) ≡ false)
        × (exceeds_arg a.user_request_limit (redis.zcard s keys.user_requests + 1) ≡ false)
        × (exceeds_arg a.tenant_request_limit (redis.zcard s keys.tenant_requests + 1) ≡ false)
  unfolding refused
  refused-tests s keys a h = ground arith

  -- A check that falls through its tests has left room at each of the four keys.
  refused-room :
      (s : Store) (t u : Text) (limits : TenantLimits) (rid : Text) (c now : ℕ)
      → refused redis s (keys_of e t u) (check_args e limits rid c now) ≡ none
      → (k : Kind) → AtMost (limit_of k limits) (card_at k s t u + 1)
  unfolding check_args key_at
  refused-room s t u limits rid c now h user_requests =
      let (uc, tc, ur, tr) = refused-tests s (keys_of e t u) (check_args e limits rid c now) h in
      rw (sym (redis.zcard_lem s (keys_of e t u).user_requests))
        (exceeds_arg_lem limits.requests_per_minute _ ur)
  refused-room s t u limits rid c now h tenant_requests =
      let (uc, tc, ur, tr) = refused-tests s (keys_of e t u) (check_args e limits rid c now) h in
      rw (sym (redis.zcard_lem s (keys_of e t u).tenant_requests))
        (exceeds_arg_lem limits.requests_per_minute _ tr)
  refused-room s t u limits rid c now h user_concurrency =
      let (uc, tc, ur, tr) = refused-tests s (keys_of e t u) (check_args e limits rid c now) h in
      rw (sym (redis.zcard_lem s (keys_of e t u).user_concurrency))
        (reaches_arg_lem limits.concurrent_requests _ uc)
  refused-room s t u limits rid c now h tenant_concurrency =
      let (uc, tc, ur, tr) = refused-tests s (keys_of e t u) (check_args e limits rid c now) h in
      rw (sym (redis.zcard_lem s (keys_of e t u).tenant_concurrency))
        (reaches_arg_lem limits.concurrent_requests _ tc)

  -- A count is not raised, or it is that of a key of the call and within its limit.
  abbrev StaysAt : TenantLimits → (k : Kind) → (t' u' t u : Text) → (s after : Store) → Type 0
  StaysAt limits k t' u' t u s after =
      (card_at k after t u ≤ card_at k s t u)
      ⊎ (((key_at k (keys_of e t' u') == key_at k (keys_of e t u)) ≡ true)
          × AtMost (limit_of k limits) (card_at k after t u))

  added-stays :
      (s : Store) (t' u' : Text) (a : CheckArgs) (limits : TenantLimits) (k : Kind) (t u : Text)
      → AtMost (limit_of k limits) (card_at k s t' u' + 1)
      → StaysAt limits k t' u' t u s
          (kept_alive redis (added redis s (keys_of e t' u') a) (keys_of e t' u') a.key_ttl_seconds)
  added-stays s t' u' a limits k t u room =
      let called = keys_of e t' u' in
      let j = key_at k (keys_of e t u) in
      let after = added redis s called a in
      let alive = card-kept_alive redis after called a.key_ttl_seconds j in
      elim (Bool-cases (key_at k called == j)) [
        | inr other ↦ inl (
            omega (
              arith,
              alive,
              card-added redis s called a j,
              hits-key_at e t u t' u' k,
              hit-false (key_at k called) j other,
            ))
        | inl same ↦ inr (
          same,
          AtMost-mono (limit_of k limits) _ (card_at k s t' u' + 1)
              (subst
                (λ x.
                  card redis j (kept_alive redis after called a.key_ttl_seconds)
                  ≤ card redis x s + 1)
                (sym ((==_iff _ j).0 same))
                (omega (
                  arith,
                  alive,
                  card-added redis s called a j,
                  hits-key_at e t u t' u' k,
                  hit-true (key_at k called) j same,
                )))
              room,
        )
      ]

  check_script-stays :
      (s : Store) (t' u' : Text) (limits : TenantLimits) (rid : Text) (c now : ℕ) (k : Kind)
      (t u : Text)
      → StaysAt limits k t' u' t u s
          (check_script redis s (keys_of e t' u') (check_args e limits rid c now)).0
  unfolding check_script
  check_script-stays s t' u' limits rid c now k t u =
      let called = keys_of e t' u' in
      let j = key_at k (keys_of e t u) in
      let a = check_args e limits rid c now in
      let clean = cleaned redis s called a in
      let lower = card-cleaned redis s called a j in
      elim (Option-cases (refused redis clean called a)) [
        | inr (reply, stop) ↦ inl (rw (stop, check_script) lower)
        | inl free ↦
            elim (added-stays clean t' u' a limits k t u
              (refused-room clean t' u' limits rid c now free k)) [
                | inl less ↦ inl (rw (free, check_script) (omega (arith, less, lower)))
                | inr (same, within) ↦ inr (same, rw (free, check_script) within)
              ]
      ]

-- A call of the enforcer, or a key whose time to live runs out.
pub data Call : Type 0 where
  check : (t u : Text) → Option ℤ → Option Text → (uuid : Text) → (now : ℕ) → Delivery → Call
  finish : (t u : Text) → Option Text → Delivery → Call
  heartbeat : (t u rid : Text) → (now : ℕ) → Delivery → Call
  lapse : (key : Text) → Call

-- Checks are called with tenant ids without a colon.
abbrev pub IsPlainCall : Call → Type 0
IsPlainCall (check t u estimate rid uuid now sent) = IsPlain t
IsPlainCall _ = Unit

module _ (redis : SortedSets) (e : RedisQuotaEnforcer) (limits : Text → TenantLimits) where
  open redis use {Store}

  unfoldable pub call : Store → Call → Store
  call s (check t u estimate rid uuid now sent) =
      (check_and_record redis e s t u (limits t) estimate rid uuid now sent).0
  call s (finish t u rid sent) = finish_request redis e s t u rid sent
  call s (heartbeat t u rid now sent) = heartbeat_request redis e s t u rid now sent
  call s (lapse key) = redis.lapse s key

  unfoldable pub run : Store → List Call → Store
  unfolding call
  run s [] = s
  run s (c ∷ cs) = run (call s c) cs

  -- Every tenant without a colon in its id is within its limits at each of its keys.
  abbrev pub IsWithin : Store → Type 0
  IsWithin s =
      (k : Kind) (t u : Text) → IsPlain t → AtMost (limit_of k (limits t)) (card_at redis e k s t u)

  not-raised :
      (s after : Store)
      → ((j : Text) → card redis j after ≤ card redis j s)
      → IsWithin s
      → IsWithin after
  not-raised s after less w k t u plain =
      AtMost-mono (limit_of k (limits t)) _ _ (less (key_at k (keys_of e t u))) (w k t u plain)

  check_script-IsWithin :
      (s : Store) (t' u' : Text) (rid : Text) (c now : ℕ)
      → IsPlain t'
      → IsWithin s
      → IsWithin (check_script redis s (keys_of e t' u') (check_args e (limits t') rid c now)).0
  check_script-IsWithin s t' u' rid c now plain' w k t u plain =
      let after = (check_script redis s (keys_of e t' u') (check_args e (limits t') rid c now)).0 in
      elim (check_script-stays redis e s t' u' (limits t') rid c now k t u) [
        | inl less ↦ AtMost-mono (limit_of k (limits t)) _ _ less (w k t u plain)
        | inr (same, within) ↦
            subst (λ x. AtMost (limit_of k (limits x)) (card_at redis e k after t u))
              (key_at-injective e t u t' u' plain plain' k same) within
      ]

  call-IsWithin : (s : Store) (c : Call) → IsPlainCall c → IsWithin s → IsWithin (call s c)
  unfolding call check_and_record finish_request heartbeat_request
  call-IsWithin s (check t u estimate rid uuid now Delivery.delivered) plain w =
      check_script-IsWithin s t u (effective_request_id rid uuid) (candidate_tokens estimate) now
        plain w
  call-IsWithin s (check t u estimate rid uuid now Delivery.unreached) plain w = w
  call-IsWithin s (check t u estimate rid uuid now Delivery.reply_lost) plain w =
      check_script-IsWithin s t u (effective_request_id rid uuid) (candidate_tokens estimate) now
        plain w
  call-IsWithin s (finish t u rid Delivery.unreached) plain w = w
  call-IsWithin s (finish t u rid _) plain w = not-raised s _ (card-finish_script redis s _ _ _ _) w
  call-IsWithin s (heartbeat t u rid now Delivery.unreached) plain w = w
  call-IsWithin s (heartbeat t u rid now _) plain w =
      not-raised s _ (card-heartbeat_script redis s _ _ now rid _) w
  call-IsWithin s (lapse key) plain w = not-raised s _ (card-lapse redis s key) w

  run-IsWithin :
      (s : Store) (cs : List Call) → All IsPlainCall cs → IsWithin s → IsWithin (run s cs)
  unfolding run
  run-IsWithin s [] plain w = w
  run-IsWithin s (c ∷ cs) plain w = run-IsWithin (call s c) cs plain.1 (call-IsWithin s c plain.0 w)

  AtMost-zero : (l : Option ℕ) → AtMost l 0
  AtMost-zero none = tt
  AtMost-zero (some n) = omega arith

  -- From empty sorted sets, whatever calls are made, lost or not, and whatever keys lapse: as long as no
  -- tenant id has a colon, ZCARD of a request key or a concurrency key of any user or tenant is at most
  -- the tenant's limit.
  pub run-AtMost :
      (s : Store) (cs : List Call) (k : Kind) (t u : Text)
      → ((key : Text) → redis.zrange s key ≡ [])
      → All IsPlainCall cs
      → IsPlain t
      → AtMost (limit_of k (limits t)) (redis.zcard (run s cs) (key_at k (keys_of e t u)))
  run-AtMost s cs k t u empty plain plain_t =
      let start : IsWithin s =
        λ k t u p. rw (empty (key_at k (keys_of e t u))) (AtMost-zero (limit_of k (limits t))) in
      rw (redis.zcard_lem (run s cs) (key_at k (keys_of e t u)))
        (run-IsWithin s cs plain start k t u plain_t)
