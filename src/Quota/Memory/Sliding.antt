-- ===== src/Quota/Memory/Sliding.antt =====
-- The bounded records against the unbounded log of all that was admitted, for a tenant and for a
-- user alike: both are a `View` of the enforcer's state.
use mathlib.Core.List.{append_assoc, append-nil}
use saa_s_governance_layer_r.Common.{
  ℕ, ◌≤◌, ◌≡◌, refl, ap, ◌∙◌, inl, inr, Bool, true, ◌&&◌, List, [], ◌∷◌, ◌++◌, Option, Text,
  text_eq, pair_eq, ◌==◌, ==_iff, ==-refl, ℤ, filter, if◌then◌else◌, arith, Bool-cases, lookup,
}
use saa_s_governance_layer_r.Registry.{TenantLimits}
use saa_s_governance_layer_r.Quota.{UsageRecord, candidate_tokens, effective_request_id}
use saa_s_governance_layer_r.Quota.Memory.{
  UserKey, InMemoryQuotaEnforcer, create, user_records_of, tenant_records_of, drop_expired_records,
  pruned, recorded, check_and_record, finish_request,
}
use saa_s_governance_layer_r.Quota.Memory.Entries.{
  user_records-pruned, tenant_records-pruned, user_records-recorded, tenant_records-recorded, entry,
}
use saa_s_governance_layer_r.Quota.Memory.Limits.{check_and_record-split}
use saa_s_governance_layer_r.Quota.Memory.History.{Call, check, finish, step, run}
use saa_s_governance_layer_r.Quota.Memory.Window.{
  Mirrors, Mirrors-nil, Mirrors-later, Mirrors-drop, Mirrors-append, drop-log, in_window,
}

-- One of the lists of records that the enforcer keeps, and whose requests it holds.
record View : Type 0 where
  kept : InMemoryQuotaEnforcer → List UsageRecord
  mine : Text → Text → Bool
  kept-pruned :
      (s : InMemoryQuotaEnforcer) (t u : Text) (now : ℕ)
      → kept (pruned s t u now)
        ≡ (if mine t u then drop_expired_records s.window_seconds now (kept s) else kept s)
  kept-recorded :
      (s : InMemoryQuotaEnforcer) (t u rid : Text) (c now : ℕ)
      → kept (recorded s t u rid c now) ≡ (if mine t u then kept s ++ entry c now ∷ [] else kept s)
  kept-finish :
      (s : InMemoryQuotaEnforcer) (t u : Text) (rid : Option Text)
      → kept (finish_request s t u rid) ≡ kept s

-- The clock of the checks does not run backwards, from a time on.
abbrev pub Monotone : ℕ → List Call → Type 0
Monotone last [] = Unit
Monotone last (check t u estimate rid uuid now ∷ calls) = (last ≤ now) × Monotone now calls
Monotone last (finish t u rid ∷ calls) = Monotone last calls

-- The time of the last check.
abbrev pub last_check : ℕ → List Call → ℕ
last_check last [] = last
last_check last (check t u estimate rid uuid now ∷ calls) = last_check now calls
last_check last (finish t u rid ∷ calls) = last_check last calls

-- What one call adds to the log of those requests that `mine` selects.
abbrev pub step_log :
    (Text → Text → Bool) → (Text → TenantLimits) → InMemoryQuotaEnforcer → Call → List UsageRecord
step_log mine limits s (check t u estimate rid uuid now) =
    if (check_and_record s t u (limits t) estimate rid uuid now).1.allowed && mine t u
    then entry (candidate_tokens estimate) now ∷ []
    else []
step_log mine limits s (finish t u rid) = []

-- All that a history admits of those requests.
abbrev pub admitted_log :
    (Text → Text → Bool)
    → (Text → TenantLimits)
    → InMemoryQuotaEnforcer
    → List Call
    → List UsageRecord
admitted_log mine limits s [] = []
admitted_log mine limits s (c ∷ cs) =
    step_log mine limits s c ++ admitted_log mine limits (step limits s c) cs

window-check :
    (s : InMemoryQuotaEnforcer) (t u : Text) (limits : TenantLimits) (estimate : Option ℤ)
    (rid : Option Text) (uuid : Text) (now : ℕ)
    → (check_and_record s t u limits estimate rid uuid now).0.window_seconds ≡ s.window_seconds
unfolding pruned recorded
window-check s t u limits estimate rid uuid now =
    elim (check_and_record-split s t u limits estimate rid uuid now) [
      | inl (yes_, after) ↦ ap (λ x. x.window_seconds) after
      | inr (no_, after) ↦ ap (λ x. x.window_seconds) after
    ]

window-run :
    (limits : Text → TenantLimits) (s : InMemoryQuotaEnforcer) (calls : List Call)
    → (run limits s calls).window_seconds ≡ s.window_seconds
unfolding finish_request
window-run limits s [] = refl
window-run limits s (check t u estimate rid uuid now ∷ calls) =
    window-run limits (step limits s (check t u estimate rid uuid now)) calls
    ∙ window-check s t u (limits t) estimate rid uuid now
window-run limits s (finish t u rid ∷ calls) =
    window-run limits (step limits s (finish t u rid)) calls

module _ (v : View) (limits : Text → TenantLimits) where
  open v use {kept, mine}

  pruned-Mirrors :
      (s : InMemoryQuotaEnforcer) (t u : Text) {last : ℕ} {log : List UsageRecord} (now : ℕ)
      → last ≤ now
      → Mirrors s.window_seconds last log (kept s)
      → Mirrors s.window_seconds now log (kept (pruned s t u now))
  pruned-Mirrors s t u now h m = rw (v.kept-pruned s t u now) (elim (Bool-cases (mine t u)) [
    | inl own ↦ rw own (Mirrors-drop m now h)
    | inr other ↦ rw other (Mirrors-later m now h)
  ])

  recorded-Mirrors :
      (s : InMemoryQuotaEnforcer) (t u rid : Text) (c now : ℕ) {w : ℕ} {log : List UsageRecord}
      → Mirrors w now log (kept s)
      → Mirrors w now
          (log ++ (if mine t u then entry c now ∷ [] else []))
          (kept (recorded s t u rid c now))
  recorded-Mirrors s t u rid c now m =
      rw (v.kept-recorded s t u rid c now) (elim (Bool-cases (mine t u)) [
        | inl own ↦ rw own (Mirrors-append m (entry c now) refl)
        | inr other ↦ rw (other, append-nil) m
      ])

  check-Mirrors :
      (s : InMemoryQuotaEnforcer) (t u : Text) (estimate : Option ℤ) (rid : Option Text)
      (uuid : Text) (now : ℕ) {last : ℕ} {log : List UsageRecord}
      → last ≤ now
      → Mirrors s.window_seconds last log (kept s)
      → Mirrors s.window_seconds now
          (log ++ step_log mine limits s (check t u estimate rid uuid now))
          (kept (check_and_record s t u (limits t) estimate rid uuid now).0)
  check-Mirrors s t u estimate rid uuid now h m =
      let cleaned = pruned-Mirrors s t u now h m in
      elim (check_and_record-split s t u (limits t) estimate rid uuid now) [
        | inl (admitted, after) ↦
            rw (admitted, after)
              (recorded-Mirrors (pruned s t u now) t u (effective_request_id rid uuid)
                (candidate_tokens estimate) now cleaned)
        | inr (refused, after) ↦ rw (refused, after, append-nil) cleaned
      ]

  run-Mirrors :
      (calls : List Call) (s : InMemoryQuotaEnforcer) (last : ℕ) (log : List UsageRecord)
      → Monotone last calls
      → Mirrors s.window_seconds last log (kept s)
      → Mirrors s.window_seconds
          (last_check last calls)
          (log ++ admitted_log mine limits s calls)
          (kept (run limits s calls))
  unfolding finish_request
  run-Mirrors [] s last log h m = rw append-nil m
  run-Mirrors (check t u estimate rid uuid now ∷ calls) s last log h m =
      let first = check-Mirrors s t u estimate rid uuid now h.0 m in
      let call = check t u estimate rid uuid now in
      let same = window-check s t u (limits t) estimate rid uuid now in
      let rest =
        run-Mirrors calls (step limits s call) now (log ++ step_log mine limits s call) h.1
          (rw same first) in
      rw (same, append_assoc) at rest
  run-Mirrors (finish t u rid ∷ calls) s last log h m =
      run-Mirrors calls (finish_request s t u rid) last log h (rw (v.kept-finish s t u rid) m)

  -- After a history on a new enforcer, cleaning keeps the log's window.
  pruned-log :
      (window ttl : ℕ) (calls : List Call) (t u : Text) (now : ℕ)
      → Monotone 0 calls
      → last_check 0 calls ≤ now
      → mine t u ≡ true
      → kept (create window ttl) ≡ []
      → kept (pruned (run limits (create window ttl) calls) t u now)
        ≡ filter (in_window window now) (admitted_log mine limits (create window ttl) calls)
  pruned-log window ttl calls t u now h at own start =
      let m = run-Mirrors calls (create window ttl) 0 [] h (rw start (Mirrors-nil window)) in
      rw (v.kept-pruned _ t u now, own, window-run limits (create window ttl) calls)
        (drop-log m now at)

module _ (s : InMemoryQuotaEnforcer) (t u : Text) (now : ℕ) where
  tenant-pruned :
      (k : Text)
      → tenant_records_of (pruned s t u now) k ≡ (
          if t == k
          then drop_expired_records s.window_seconds now (tenant_records_of s k)
          else tenant_records_of s k)
  tenant-pruned k = ground (arith, tenant_records-pruned s t u now k, ==_iff t k)

  user-pruned :
      (k : UserKey)
      → user_records_of (pruned s t u now) k ≡ (
          if (t, u) == k
          then drop_expired_records s.window_seconds now (user_records_of s k)
          else user_records_of s k)
  user-pruned k = ground (arith, user_records-pruned s t u now k, ==_iff {A = UserKey} (t, u) k)

module _ (s : InMemoryQuotaEnforcer) (t u rid : Text) (c now : ℕ) where
  tenant-recorded :
      (k : Text)
      → tenant_records_of (recorded s t u rid c now) k
        ≡ (if t == k then tenant_records_of s k ++ entry c now ∷ [] else tenant_records_of s k)
  tenant-recorded k = ground (arith, tenant_records-recorded s t u rid c now k, ==_iff t k)

  user-recorded :
      (k : UserKey)
      → user_records_of (recorded s t u rid c now) k
        ≡ (if (t, u) == k then user_records_of s k ++ entry c now ∷ [] else user_records_of s k)
  user-recorded k =
      ground (arith, user_records-recorded s t u rid c now k, ==_iff {A = UserKey} (t, u) k)

module _ (s : InMemoryQuotaEnforcer) (t u : Text) (rid : Option Text) where
  tenant-finish :
      (k : Text) → tenant_records_of (finish_request s t u rid) k ≡ tenant_records_of s k
  unfolding finish_request
  tenant-finish k = refl

  user-finish : (k : UserKey) → user_records_of (finish_request s t u rid) k ≡ user_records_of s k
  unfolding finish_request
  user-finish k = refl

abbrev tenant_view : Text → View
tenant_view k = record {
  kept = λ s. tenant_records_of s k;
  mine = λ t u. t == k;
  kept-pruned = λ s t u now. tenant-pruned s t u now k;
  kept-recorded = λ s t u rid c now. tenant-recorded s t u rid c now k;
  kept-finish = λ s t u rid. tenant-finish s t u rid k;
}

abbrev user_view : UserKey → View
user_view k = record {
  kept = λ s. user_records_of s k;
  mine = λ t u. (t, u) == k;
  kept-pruned = λ s t u now. user-pruned s t u now k;
  kept-recorded = λ s t u rid c now. user-recorded s t u rid c now k;
  kept-finish = λ s t u rid. user-finish s t u rid k;
}

create-empty :
    (window ttl : ℕ) (t u : Text)
    → (tenant_records_of (create window ttl) t ≡ [])
      × (user_records_of (create window ttl) (t, u) ≡ [])
unfolding lookup
create-empty window ttl t u = (refl, refl)

-- On a new enforcer whose checks see a clock that does not run backwards, the records that a check
-- tests, for the tenant and for the user, are exactly those requests that were ever admitted for the
-- tenant, or for the user, and that lie in the window ending at the time of the check.
pub check-sliding_window :
    (limits : Text → TenantLimits) (window ttl : ℕ) (calls : List Call) (t u : Text) (now : ℕ)
    → Monotone 0 calls
    → last_check 0 calls ≤ now
    → let start = create window ttl in
      let cleaned = pruned (run limits start calls) t u now in
      (tenant_records_of cleaned t
        ≡ filter (in_window window now) (admitted_log (λ a b. a == t) limits start calls))
      × (user_records_of cleaned (t, u)
          ≡ filter
              (in_window window now)
              (admitted_log (λ a b. (a == t) && (b == u)) limits start calls))
check-sliding_window limits window ttl calls t u now h at =
    let empty = create-empty window ttl t u in
    (
      pruned-log (tenant_view t) limits window ttl calls t u now h at (==-refl t) empty.0,
      pruned-log (user_view (t, u)) limits window ttl calls t u now h at
          (==-refl {A = UserKey} (t, u)) empty.1,
    )
