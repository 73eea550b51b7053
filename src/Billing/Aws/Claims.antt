-- ===== src/Billing/Aws/Claims.antt =====
-- Counting the entries of a request id, and what the claims of some entries leave.
use saa_s_governance_layer_r.Common.{
  ℕ, ◌+◌, ◌≤◌, ◌≡◌, refl, ap, subst, ◌∙◌, ◌⊎◌, inl, inr, Bool, true, false, ◌||◌, List, [], ◌∷◌,
  ◌++◌, Option, none, some, Text, text_eq, pair_eq, ◌==◌, ==_iff, ==-refl, arith, leb, insert,
  lookup, get_or, Bool-cases, some_unique,
}
use saa_s_governance_layer_r.Billing.{BillingLedgerEntry}
use saa_s_governance_layer_r.Billing.Aws.{
  PutItem, created, exists, failed, StoredObject, AwsServices, AwsSettings, Partition, Partitions,
  claim, with_entry, claim_all,
}

abbrev pub flag : Bool → ℕ
flag true = 1
flag false = 0

-- How many of some entries have a request id.
unfoldable pub occurrences : Text → List BillingLedgerEntry → ℕ
occurrences rid [] = 0
occurrences rid (e ∷ es) = flag (e.request_id == rid) + occurrences rid es

unfoldable pub occurrences_in : {K : Type 0} → Text → List (K × List BillingLedgerEntry) → ℕ
unfolding occurrences
occurrences_in rid [] = 0
occurrences_in rid (o ∷ os) = occurrences rid o.1 + occurrences_in rid os

pub occurrences-append :
    (rid : Text) (es fs : List BillingLedgerEntry)
    → occurrences rid (es ++ fs) ≡ occurrences rid es + occurrences rid fs
unfolding occurrences
occurrences-append rid [] fs = omega arith
occurrences-append rid (e ∷ es) fs = omega (arith, occurrences-append rid es fs)

pub occurrences_in-append :
    (rid : Text) (os : List StoredObject) (o : StoredObject)
    → occurrences_in rid (os ++ o ∷ []) ≡ occurrences_in rid os + occurrences rid o.1
unfolding occurrences_in
occurrences_in-append rid [] o = omega arith
occurrences_in-append rid (x ∷ os) o = omega (arith, occurrences_in-append rid os o)

pub occurrences_in-insert :
    (rid : Text) (p : Partition) (fs : List BillingLedgerEntry) (groups : Partitions)
    → occurrences_in rid (insert p fs groups) + occurrences rid (get_or (lookup p groups) [])
      ≡ occurrences_in rid groups + occurrences rid fs
unfolding occurrences_in occurrences lookup insert
occurrences_in-insert rid p fs [] = omega arith
occurrences_in-insert rid p fs ((q, es) ∷ groups) = elim (Bool-cases (q == p)) [
  | inl same ↦ rw same (omega arith)
  | inr other ↦ rw other (omega (arith, occurrences_in-insert rid p fs groups))
]

PutItem-cases : (r : PutItem) → (r ≡ created) ⊎ (r ≡ exists) ⊎ (r ≡ failed)
PutItem-cases created = inl refl
PutItem-cases exists = inr (inl refl)
PutItem-cases failed = inr (inr refl)

-- A key that was not there counts once more.
flag_new :
    (known : Text → Bool) (i rid : Text)
    → known i ≡ false
    → flag ((i == rid) || known rid) ≡ flag (i == rid) + flag (known rid)
flag_new known i rid fresh = elim (Bool-cases (i == rid)) [
  | inr other ↦ rw other (omega arith)
  | inl same ↦ rw (same, subst (λ x. known x ≡ false) ((==_iff i rid).0 same) fresh) refl
]

flag_mono : (a b : Bool) → (a ≡ true → b ≡ true) → flag a ≤ flag b
flag_mono a b h = ground arith

pub flag_le : (a : Bool) → flag a ≤ 1
flag_le a = ground arith

-- What equals a key that is there, is there.
flag_old :
    (known : Text → Bool) (i rid : Text) → known i ≡ true → flag (i == rid) ≤ flag (known rid)
flag_old known i rid old = elim (Bool-cases (i == rid)) [
  | inr other ↦ rw other (omega arith)
  | inl same ↦ rw (same, subst (λ x. known x ≡ true) ((==_iff i rid).0 same) old) (omega arith)
]

pub occurs_own :
    (e : BillingLedgerEntry) (es : List BillingLedgerEntry) → 1 ≤ occurrences e.request_id (e ∷ es)
unfolding occurrences
occurs_own e es = rw (==-refl e.request_id) (omega arith)

pub occurs_later :
    (j : Text) (e : BillingLedgerEntry) (es : List BillingLedgerEntry)
    → 1 ≤ occurrences j es
    → 1 ≤ occurrences j (e ∷ es)
unfolding occurrences
occurs_later j e es least = omega arith

pub reached_after :
    (m n k1 k2 : ℕ) → (1 ≤ m → k1 ≡ 1) → k1 ≤ k2 → k2 ≤ 1 → (1 ≤ n → k2 ≡ 1) → 1 ≤ m + n → k2 ≡ 1
reached_after m n k1 k2 first stays most rest least = elim (Bool-cases (leb 1 n)) [
  | inl some_left ↦ rest (ground arith)
  | inr none_left ↦ omega (arith, first (ground arith))
]

pub known_by : (b : Bool) → 1 ≤ flag b → b ≡ true
known_by true h = refl
known_by false h = ground arith

reached_by : (b n k1 k2 : ℕ) → b ≤ k1 → k1 ≤ k2 → k2 ≤ 1 → (1 ≤ n → k2 ≡ 1) → 1 ≤ b + n → k2 ≡ 1
reached_by b n k1 k2 own stays most rest least = elim (Bool-cases (leb 1 n)) [
  | inl some_left ↦ rest (ground arith)
  | inr none_left ↦ ground arith
]

with_entry_lem :
    (rid : Text) (e : BillingLedgerEntry) (rest : Option (List BillingLedgerEntry))
    (es : List BillingLedgerEntry)
    → with_entry e rest ≡ some es
    → (claimed : List BillingLedgerEntry) × (rest ≡ some claimed)
      × (occurrences rid es ≡ flag (e.request_id == rid) + occurrences rid claimed)
unfolding occurrences
with_entry_lem rid e none es h = cc
with_entry_lem rid e (some claimed) es h =
    (claimed, refl, omega (arith, ap (occurrences rid) (some_unique refl h)))

module _ (aws : AwsServices) (settings : AwsSettings) (hour_path : Text → Text)
    (batch_name : Partition → Text) where
  open aws use {Cloud, known, objects}

  -- The number of entries of a request id in the bucket.
  abbrev pub copies : Text → Cloud → ℕ
  copies rid c = occurrences_in rid (objects c)

  -- What the claims of some entries leave: the bucket as it was, and for each claimed entry of a request
  -- id the id newly known.
  pub record Claimed (rid : Text) (entries : List BillingLedgerEntry) (c after : Cloud)
      (claimed : Option (List BillingLedgerEntry)) : Type 0 where
    pub same : objects after ≡ objects c
    pub stays : flag (known c rid) ≤ flag (known after rid)
    pub newly :
        (es : List BillingLedgerEntry)
        → claimed ≡ some es
        → occurrences rid es + flag (known c rid) ≡ flag (known after rid)
    pub reached :
        (es : List BillingLedgerEntry)
        → claimed ≡ some es
        → 1 ≤ occurrences rid entries
        → flag (known after rid) ≡ 1

  module _ (table : settings.has_table ≡ true) where
    -- A claim leaves the bucket alone; it makes its id known, finds it known, or fails.
    claim_cases :
        (c : Cloud) (e : BillingLedgerEntry)
        → let first = claim aws settings hour_path batch_name c e in
          (objects first.0 ≡ objects c)
          × (((first.1 ≡ some true)
                × (known c e.request_id ≡ false)
                × ((j : Text) → known first.0 j ≡ ((e.request_id == j) || known c j)))
              ⊎ ((first.1 ≡ some false)
                  × (known c e.request_id ≡ true)
                  × ((j : Text) → known first.0 j ≡ known c j))
              ⊎ ((first.1 ≡ none) × ((j : Text) → known c j ≡ true → known first.0 j ≡ true)))
    unfolding claim
    claim_cases c e =
        let put = aws.put_item c e.request_id e.tenant_id e.created_at in
        rw table (
          aws.objects-put_item c e.request_id e.tenant_id e.created_at,
          elim (PutItem-cases put.1) [
            | inl h ↦
                let (fresh, after) =
                  aws.put_item-created c e.request_id e.tenant_id e.created_at h in
                inl (rw h refl, fresh, after)
            | inr (inl h) ↦
                let (old, after) = aws.put_item-exists c e.request_id e.tenant_id e.created_at h in
                inr (inl (rw h refl, old, after))
            | inr (inr h) ↦ inr (
                inr (
                  rw h refl,
                  (λ j. aws.put_item-failed c e.request_id e.tenant_id e.created_at j h),
                ))
          ],
        )

    pub claim_all-Claimed :
        (rid : Text) (c : Cloud) (es : List BillingLedgerEntry)
        → let result = claim_all aws settings hour_path batch_name c es in
          Claimed rid es c result.0 result.1
    unfolding claim_all occurrences
    claim_all-Claimed rid c [] = record {
      same = refl;
      stays = omega arith;
      newly = (λ es h. omega (arith, ap (occurrences rid) (some_unique refl h)));
      reached = (λ es h least. omega arith);
    }
    claim_all-Claimed rid c (e ∷ es) =
        let first = claim aws settings hour_path batch_name c e in
        let rest = claim_all-Claimed rid first.0 es in
        let (same, cases) = claim_cases c e in
        elim cases [
          | inl (h, fresh, after) ↦
              let news = flag_new (known c) e.request_id rid fresh in
              record {
                same = rw (h, claim_all) (rest.same ∙ same);
                stays = rw (h, claim_all) (omega (arith, rest.stays, ap flag (after rid), news));
                newly =
                    rw (h, claim_all)
                      (λ es' q.
                        let (claimed, kept, sum) = with_entry_lem rid e _ es' q in
                        omega (arith, sum, rest.newly claimed kept, ap flag (after rid), news));
                reached =
                    rw (h, claim_all)
                      (λ es' q least.
                        let (claimed, kept, sum) = with_entry_lem rid e _ es' q in
                        reached_by (flag (e.request_id == rid)) (occurrences rid es)
                          (flag (known first.0 rid)) _ (omega (arith, ap flag (after rid), news))
                          rest.stays (flag_le (known _ rid)) (rest.reached claimed kept) least);
              }
          | inr (inl (h, old, after)) ↦ record {
            same = rw (h, claim_all) (rest.same ∙ same);
            stays = rw (h, claim_all) (omega (arith, rest.stays, ap flag (after rid)));
            newly =
                rw (h, claim_all) (λ es' q. omega (arith, rest.newly es' q, ap flag (after rid)));
            reached =
                rw (h, claim_all)
                  (λ es' q least.
                    reached_by (flag (e.request_id == rid)) (occurrences rid es)
                      (flag (known first.0 rid)) _
                      (omega (arith, ap flag (after rid), flag_old (known c) e.request_id rid old))
                      rest.stays (flag_le (known _ rid)) (rest.reached es' q) least);
          }
          | inr (inr (h, after)) ↦ record {
            same = rw (h, claim_all) same;
            stays = rw (h, claim_all) (flag_mono (known c rid) _ (after rid));
            newly = rw (h, claim_all) (λ es' q. cc q);
            reached = rw (h, claim_all) (λ es' q. cc q);
          }
        ]
