-- ===== src/Quota/Memory/Window.antt =====
-- Records in the order of their times: cleaning from the front is cutting off the window.
use saa_s_governance_layer_r.Common.{
  ℕ, ◌+◌, ◌*◌, ◌≤◌, ◌≡◌, refl, sym, ap, ◌∙◌, inl, inr, Bool, false, not, List, [], ◌∷◌, ◌++◌, leb,
  filter, All, All-append, All-map, arith, Bool-cases,
}
use mathlib.Core.List.{append_assoc}
use saa_s_governance_layer_r.Quota.{UsageRecord}
use saa_s_governance_layer_r.Quota.Memory.{drop_expired_records}

-- The record is older than the window that ends now.
abbrev pub is_expired : ℕ → ℕ → UsageRecord → Bool
is_expired window now r = leb (r.timestamp + window * 1000) now

abbrev pub in_window : ℕ → ℕ → UsageRecord → Bool
in_window window now r = not (is_expired window now r)

abbrev pub IsBefore : ℕ → UsageRecord → Type 0
IsBefore now r = r.timestamp ≤ now

abbrev pub IsAfter : ℕ → UsageRecord → Type 0
IsAfter from r = from ≤ r.timestamp

abbrev pub IsExpired : ℕ → ℕ → UsageRecord → Type 0
IsExpired window now r = r.timestamp + window * 1000 ≤ now

abbrev pub IsSorted : List UsageRecord → Type 0
IsSorted [] = Unit
IsSorted (r ∷ rs) = All (IsAfter r.timestamp) rs × IsSorted rs

IsSorted-append :
    (rs : List UsageRecord) (x : UsageRecord)
    → IsSorted rs
    → All (IsBefore x.timestamp) rs
    → IsSorted (rs ++ x ∷ [])
IsSorted-append [] x h b = (tt, tt)
IsSorted-append (r ∷ rs) x h b =
    (All-append (IsAfter r.timestamp) rs (x ∷ []) h.0 (b.0, tt), IsSorted-append rs x h.1 b.1)

drop-IsSorted :
    (w now : ℕ) (rs : List UsageRecord) → IsSorted rs → IsSorted (drop_expired_records w now rs)
unfolding drop_expired_records
drop-IsSorted w now [] h = tt
drop-IsSorted w now (r ∷ rs) h = elim (Bool-cases (is_expired w now r)) [
  | inl old ↦ rw old (drop-IsSorted w now rs h.1)
  | inr young ↦ rw young h
]

drop-All :
    (P : UsageRecord → Type 0) (w now : ℕ) (rs : List UsageRecord)
    → All P rs
    → All P (drop_expired_records w now rs)
unfolding drop_expired_records
drop-All P w now [] h = tt
drop-All P w now (r ∷ rs) h = elim (Bool-cases (is_expired w now r)) [
  | inl old ↦ rw old (drop-All P w now rs h.1)
  | inr young ↦ rw young h
]

-- What is dropped is a prefix of expired records.
drop-split :
    (w now : ℕ) (rs : List UsageRecord)
    → (old : List UsageRecord) × (rs ≡ old ++ drop_expired_records w now rs)
      × All (IsExpired w now) old
unfolding drop_expired_records
drop-split w now [] = ([], refl, tt)
drop-split w now (r ∷ rs) = elim (Bool-cases (is_expired w now r)) [
  | inl old ↦
      let (pre, same, expired) = drop-split w now rs in
      (r ∷ pre, rw old (ap (λ x. r ∷ x) same), (ground arith, expired))
  | inr young ↦ ([], rw young, tt)
]

filter-expired :
    (w now : ℕ) (rs : List UsageRecord)
    → All (IsExpired w now) rs
    → filter (in_window w now) rs ≡ []
filter-expired w now [] h = refl
filter-expired w now (r ∷ rs) h = ground (arith, filter-expired w now rs h.1)

filter-young :
    (w now from : ℕ) (rs : List UsageRecord)
    → All (IsAfter from) rs
    → leb (from + w * 1000) now ≡ false
    → filter (in_window w now) rs ≡ rs
filter-young w now from [] h young = refl
filter-young w now from (r ∷ rs) h young = ground (arith, filter-young w now from rs h.1)

-- On records in order, dropping from the front keeps exactly those in the window.
drop-filter :
    (w now : ℕ) (rs : List UsageRecord)
    → IsSorted rs
    → drop_expired_records w now rs ≡ filter (in_window w now) rs
unfolding drop_expired_records
drop-filter w now [] h = refl
drop-filter w now (r ∷ rs) h = elim (Bool-cases (is_expired w now r)) [
  | inl old ↦ rw old (drop-filter w now rs h.1)
  | inr young ↦ rw young (ap (λ x. r ∷ x) (sym (filter-young w now r.timestamp rs h.0 young)))
]

filter-append :
    (p : UsageRecord → Bool) (xs ys : List UsageRecord)
    → filter p (xs ++ ys) ≡ filter p xs ++ filter p ys
filter-append p [] ys = refl
filter-append p (x ∷ xs) ys = ground (arith, filter-append p xs ys)

-- The records that are kept are the end of the log of all that was admitted: what came before them
-- is out of the window, and they are in order, none from the future.
pub record Mirrors (w last : ℕ) (log kept : List UsageRecord) : Type 0 where
  pub old : List UsageRecord
  pub whole : log ≡ old ++ kept
  pub expired : All (IsExpired w last) old
  pub sorted : IsSorted kept
  pub before : All (IsBefore last) kept

pub Mirrors-nil : (w : ℕ) → Mirrors w 0 [] []
Mirrors-nil w = record { old = []; whole = refl; expired = tt; sorted = tt; before = tt }

module _ {w last : ℕ} {log kept : List UsageRecord} (m : Mirrors w last log kept) where
  later-IsExpired : (now : ℕ) → last ≤ now → All (IsExpired w now) m.old
  later-IsExpired now h = All-map m.old (λ r e. omega arith) m.expired

  pub Mirrors-later : (now : ℕ) → last ≤ now → Mirrors w now log kept
  Mirrors-later now h = record {
    old = m.old;
    whole = m.whole;
    expired = later-IsExpired now h;
    sorted = m.sorted;
    before = All-map kept (λ r e. omega arith) m.before;
  }

  pub Mirrors-drop : (now : ℕ) → last ≤ now → Mirrors w now log (drop_expired_records w now kept)
  Mirrors-drop now h =
      let (pre, same, expired) = drop-split w now kept in
      record {
        old = m.old ++ pre;
        whole = m.whole ∙ ap (λ x. m.old ++ x) same ∙ sym (append_assoc m.old pre _);
        expired = All-append (IsExpired w now) m.old pre (later-IsExpired now h) expired;
        sorted = drop-IsSorted w now kept m.sorted;
        before = drop-All (IsBefore now) w now kept (All-map kept (λ r e. omega arith) m.before);
      }

  -- What cleaning keeps is what the log has in the window.
  pub drop-log :
      (now : ℕ) → last ≤ now → drop_expired_records w now kept ≡ filter (in_window w now) log
  drop-log now h =
      rw
        (
          m.whole,
          filter-append (in_window w now) m.old kept,
          filter-expired w now m.old (later-IsExpired now h),
        )
        (drop-filter w now kept m.sorted)

pub Mirrors-append :
    {w last : ℕ} {log kept : List UsageRecord}
    → Mirrors w last log kept
    → (x : UsageRecord) → x.timestamp ≡ last
    → Mirrors w last (log ++ x ∷ []) (kept ++ x ∷ [])
Mirrors-append {w} {last} {log} {kept} m x at = record {
  old = m.old;
  whole = ap (λ l. l ++ x ∷ []) m.whole ∙ append_assoc m.old kept (x ∷ []);
  expired = m.expired;
  sorted = IsSorted-append kept x m.sorted (rw at m.before);
  before = All-append (IsBefore last) kept (x ∷ []) m.before (omega arith, tt);
}
