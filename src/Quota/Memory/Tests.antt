-- ===== src/Quota/Memory/Tests.antt =====
-- A small history of the in-memory enforcer: two requests a minute, two at a time.
use saa_s_governance_layer_r.Common.{
  ◌≡◌, refl, ◌⊎◌, ◌&&◌, List, [], ◌∷◌, ◌++◌, none, some, Text, codes, text_beq, text_eq, text-ne,
  ◌==◌, pos, lookup, insert, erase, length, filter, arith,
}
use saa_s_governance_layer_r.Reason.{Reason}
use saa_s_governance_layer_r.Registry.{TenantLimits}
use saa_s_governance_layer_r.Examples.{limits_a}
use saa_s_governance_layer_r.Quota.{candidate_tokens, effective_request_id}
use saa_s_governance_layer_r.Quota.Memory.{
  InMemoryQuotaEnforcer, create, user_records_of, tenant_records_of, active_user_of,
  active_tenant_of, drop_expired_records, drop_stale_concurrency, retry_after, sum_input_tokens,
  pruned, violation, violation_at, recorded, check_and_record, finish_request,
  quota_allowed_decision, refusal,
}
use saa_s_governance_layer_r.Quota.Memory.Entries.{entry}
use saa_s_governance_layer_r.Quota.Memory.Limits.{HasRoomAt, IsRefusal, check_and_record-cases}
use saa_s_governance_layer_r.Quota.Memory.History.{
  Call, check, finish, run, IsWithin, run-create-IsWithin,
}
use saa_s_governance_layer_r.Quota.Memory.Window.{in_window}
use saa_s_governance_layer_r.Quota.Memory.Sliding.{admitted_log, check-sliding_window}
use saa_s_governance_layer_r.Quota.Memory.Isolation.{AgreeAt, check_and_record-AgreeAt}
use saa_s_governance_layer_r.Quota.Memory.Slots.{finish-check, replayed_id-uncounted}

enforcing : Unit {0}
unfolding check_and_record pruned recorded violation violation_at retry_after sum_input_tokens
    drop_expired_records drop_stale_concurrency finish_request candidate_tokens effective_request_id
    lookup insert erase text_beq
enforcing = tt

abbrev a : Text
a = codes "tenant-a"

abbrev ann : Text
ann = codes "ann"

abbrev r1 : Text
r1 = codes "r1"

abbrev history : List Call
history =
    check a ann (some (pos 10)) (some r1) [] 1000
    ∷ check a ann (some (pos 20)) (some (codes "r2")) [] 2000
    ∷ finish a ann (some r1)
    ∷ []

abbrev limits_of : Text → TenantLimits
limits_of t = limits_a

abbrev start : InMemoryQuotaEnforcer
start = create 60 900

abbrev busy : InMemoryQuotaEnforcer
busy = run limits_of start history

history_tests :
    ((check_and_record busy a ann limits_a none (some (codes "r3")) [] 30000).1
      ≡ refusal Reason.request_quota_exceeded 31)
    × ((check_and_record busy a ann limits_a none (some (codes "r3")) [] 61000).1
        ≡ quota_allowed_decision)
    × (length (active_user_of busy (a, ann)) ≡ 1)
unfolding enforcing
history_tests = (refl, refl, refl)

check_and_record-cases_example :
    let cleaned = pruned start a ann 1000 in
    let result = check_and_record start a ann limits_a (some (pos 10)) (some r1) [] 1000 in
    (HasRoomAt cleaned limits_a a ann (candidate_tokens (some (pos 10)))
      × (result.1 ≡ quota_allowed_decision)
      × (result.0
          ≡ recorded cleaned a ann
              (effective_request_id (some r1) [])
              (candidate_tokens (some (pos 10)))
              1000))
    ⊎ ((¬ HasRoomAt cleaned limits_a a ann (candidate_tokens (some (pos 10))))
        × IsRefusal result.1
        × (result.0 ≡ cleaned))
check_and_record-cases_example =
    check_and_record-cases start a ann limits_a (some (pos 10)) (some r1) [] 1000 (omega arith)

run-create-IsWithin_example : IsWithin limits_of (run limits_of (create 60 900) history)
run-create-IsWithin_example = run-create-IsWithin limits_of 60 900 history

check-sliding_window_example :
    let cleaned = pruned (run limits_of (create 60 900) history) a ann 61000 in
    (tenant_records_of cleaned a
      ≡ filter
          (in_window 60 61000)
          (admitted_log (λ t u. t == a) limits_of (create 60 900) history))
    × (user_records_of cleaned (a, ann)
        ≡ filter
            (in_window 60 61000)
            (admitted_log (λ t u. (t == a) && (u == ann)) limits_of (create 60 900) history))
check-sliding_window_example =
    check-sliding_window limits_of 60 900 history a ann 61000 (omega arith) (omega arith)

check_and_record-AgreeAt_example :
    AgreeAt start
      (check_and_record start a ann limits_a none (some r1) [] 1000).0
      (codes "tenant-b")
      ann
    × AgreeAt start (finish_request start a ann (some r1)) (codes "tenant-b") ann
unfolding text_beq
check_and_record-AgreeAt_example =
    check_and_record-AgreeAt start a ann (codes "tenant-b") ann limits_a none (some r1) [] 1000
      (text-ne a (codes "tenant-b") refl)

finish-check_example :
    let cleaned = pruned start a ann 1000 in
    let checked = check_and_record start a ann limits_a (some (pos 10)) (some r1) [] 1000 in
    let finished = finish_request checked.0 a ann (some (effective_request_id (some r1) [])) in
    (active_user_of finished (a, ann) ≡ active_user_of cleaned (a, ann))
    × (active_tenant_of finished a ≡ active_tenant_of cleaned a)
    × (user_records_of finished (a, ann)
        ≡ user_records_of cleaned (a, ann) ++ entry (candidate_tokens (some (pos 10))) 1000 ∷ [])
    × (tenant_records_of finished a
        ≡ tenant_records_of cleaned a ++ entry (candidate_tokens (some (pos 10))) 1000 ∷ [])
unfolding enforcing
finish-check_example = finish-check start a ann limits_a (some (pos 10)) r1 [] 1000 refl refl refl

abbrev one_flying : InMemoryQuotaEnforcer
one_flying = run limits_of start (check a ann (some (pos 10)) (some r1) [] 1000 ∷ [])

replayed_id-uncounted_example :
    length (
      active_user_of (check_and_record one_flying a ann limits_a none (some r1) [] 1500).0 (a, ann))
    ≡ length (active_user_of (pruned one_flying a ann 1500) (a, ann))
unfolding enforcing
replayed_id-uncounted_example =
    replayed_id-uncounted one_flying a ann limits_a none r1 [] 1500 refl refl
