-- ===== src/Quota/Redis/Tests.antt =====
-- The Redis enforcer on sorted sets that are kept in a dictionary, newest member last.
use saa_s_governance_layer_r.Common.{
  ℕ, ◌≤◌, ◌≡◌, refl, sym, false, not, ◌&&◌, List, [], ◌∷◌, ◌++◌, none, some, Text, codes, text_eq,
  text_beq, ◌==◌, ==_iff, ==-refl, pos, Dict, lookup, lookup-nil, insert, get_or, get_or-insert,
  filter, length, map, leb, arith, if◌then◌else◌, append-nil, All, read_from, show, count,
}
use saa_s_governance_layer_r.Reason.{Reason}
use saa_s_governance_layer_r.Registry.{TenantLimits}
use saa_s_governance_layer_r.Examples.{limits_a}
use saa_s_governance_layer_r.Quota.{candidate_tokens, effective_request_id}
use saa_s_governance_layer_r.Quota.Redis.{
  cleaned, refused, retry_after_for, zset_sum_tokens, sum_tokens, token_of, added, kept_alive,
  zrem_first, check_script, finish_script, limit_arg, heartbeat_script,
}
use saa_s_governance_layer_r.Quota.Redis.Methods.{
  RedisQuotaEnforcer, Delivery, create, keys_of, check_and_record, finish_request, check_args,
  decision_of,
}
use saa_s_governance_layer_r.Quota.SortedSets.{Entry, SortedSets, at_most, at_least, others, holds}
use saa_s_governance_layer_r.Quota.Redis.KeyNames.{
  key_at, IsPlain, user_requests, tenant_requests, user_concurrency, tenant_concurrency,
}
use saa_s_governance_layer_r.Quota.Redis.Limits.{Call, check, finish, call, run, run-AtMost}
use saa_s_governance_layer_r.Quota.Redis.Limits.{IsPlainCall}
use saa_s_governance_layer_r.Quota.Redis.Enforcer.{IsAnswer, check_and_record_answers}

abbrev Sets : Type 0
Sets = Dict Text (List Entry)

abbrev members : Sets → Text → List Entry
members s k = get_or (lookup k s) []

abbrev change : (List Entry → List Entry) → Text → Sets → Sets
change f k s = insert k (f (members s k)) s

members-change :
    (f : List Entry → List Entry) (k j : Text) (s : Sets)
    → members (change f k s) j ≡ (if k == j then f (members s j) else members s j)
members-change f k j s = ground (arith, get_or-insert k j (f (members s k)) [] s, ==_iff k j)

abbrev put : Text → ℕ → List Entry → List Entry
put m n es = others m es ++ (m, n) ∷ []

abbrev dictionary : SortedSets
dictionary = record {
  Store = Sets;
  zadd = (λ s k n m. change (put m n) k s);
  zadd_xx = (λ s k n m. if holds m (members s k) then change (put m n) k s else s);
  zrem = (λ s k m. change (others m) k s);
  zremrangebyscore = (λ s k lo hi. change (filter (λ e. not (leb lo e.1 && at_most e.1 hi))) k s);
  tostring = show;
  tostring-show = (λ n h. refl);
  expire = (λ s k n. s);
  lapse = (λ s k. change (λ es. []) k s);
  zcard = (λ s k. length (members s k));
  zrange = members;
  zrangebyscore =
      (λ s k lo hi. map (λ e. e.0) (filter (λ e. at_least lo e.1 && leb e.1 hi) (members s k)));
  zcard_lem = (λ s k. refl);
  zrangebyscore_lem = (λ s k lo hi. refl);
  zrange-zrem = (λ s k m j. members-change (others m) k j s);
  zrange-zremrangebyscore =
      (λ s k lo hi j. members-change (filter (λ e. not (leb lo e.1 && at_most e.1 hi))) k j s);
  zrange-expire = (λ s k n j. refl);
  zrange-lapse = (λ s k j. members-change (λ es. []) k j s);
  zrange-zadd_other = (λ s k n m j other. rw (members-change (put m n) k j s, other) refl);
  zrange-zadd = (λ s k n m. (
    others m (members s k),
    [],
    sym (append-nil (others m (members s k))),
    rw (members-change (put m n) k k s, ==-refl k) refl,
  ));
  zadd_xx_lem = (λ s k n m. refl);
}

abbrev a : Text
a = codes "tenant-a"

abbrev ann : Text
ann = codes "ann"

abbrev limits_of : Text → TenantLimits
limits_of t = limits_a

abbrev enforcer : RedisQuotaEnforcer
enforcer = create 60 (codes "gw:") 900

abbrev history : List Call
history =
    check a ann (some (pos 10)) (some (codes "r1")) [] 1000 Delivery.delivered
    ∷ check a ann (some (pos 20)) (some (codes "r2")) [] 2000 Delivery.reply_lost
    ∷ finish a ann (some (codes "r1")) Delivery.delivered
    ∷ []

abbrev busy : Sets
busy = run dictionary enforcer limits_of [] history

enforcing : Unit {0}
unfolding create keys_of check_and_record check_script cleaned refused retry_after_for
    zset_sum_tokens sum_tokens token_of added kept_alive zrem_first finish_script check_args
    limit_arg heartbeat_script finish_request run call lookup insert text_beq candidate_tokens
    effective_request_id show read_from key_at
enforcing = tt

script_tests :
    (map
        (λ k. length (members busy (key_at k (keys_of enforcer a ann))))
        (user_requests ∷ tenant_requests ∷ user_concurrency ∷ tenant_concurrency ∷ [])
      ≡ 2 ∷ 2 ∷ 1 ∷ 1 ∷ [])
    × ((check_and_record dictionary enforcer busy a ann limits_a none
          (some (codes "r3"))
          []
          30000
          Delivery.delivered).1
        ≡ decision_of
            (record { allowed = false; reason = Reason.request_quota_exceeded; retry_after = 31 }))
    × (zset_sum_tokens dictionary busy
          (check_args enforcer limits_a [] 0 3000)
          (keys_of enforcer a ann).user_input
        ≡ 30)
    × ((keys_of enforcer a ann).user_concurrency ≡ codes "gw:concurrency:user:tenant-a:ann")
unfolding enforcing
script_tests = (refl, refl, refl, refl)

run-AtMost_example :
    dictionary.zcard
      (run dictionary enforcer limits_of [] history)
      (key_at user_concurrency (keys_of enforcer a ann))
    ≤ 2
unfolding count
run-AtMost_example =
    run-AtMost dictionary enforcer limits_of [] history user_concurrency a ann nothing plain_history
      plain
  where
    nothing : (key : Text) → members [] key ≡ []
    nothing key = rw (lookup-nil {V = List Entry} key) refl

    plain : IsPlain a
    plain = refl

    plain_history : All IsPlainCall history
    plain_history = (refl, (refl, (tt, tt)))

check_and_record_answers_example :
    let id = effective_request_id (some (codes "r3")) [] in
    let result =
      check_and_record dictionary enforcer busy a ann limits_a none
        (some (codes "r3"))
        []
        30000
        Delivery.delivered in
    IsAnswer dictionary enforcer busy a ann id
      (check_args enforcer limits_a id (candidate_tokens none) 30000)
      Delivery.delivered
      result.0
      result.1
unfolding create
check_and_record_answers_example =
    check_and_record_answers dictionary enforcer busy a ann limits_a none (some (codes "r3")) []
      30000 Delivery.delivered (omega arith) (omega arith)
