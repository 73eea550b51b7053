-- ===== src/Billing/Aws.antt =====
-- billing_ledger.py: the batches of the AWS mode. An entry's request id is claimed in a DynamoDB table,
-- the claimed entries of a tenant and an hour are one object in S3, and their claims are completed.
-- The two services are the parameter `AwsServices`: what they store is read by `known` and
-- `objects`, and the laws are the documented effects of the calls, of those that fail as well.
-- An object is the list of its entries, in place of their JSON lines.
pub mod Claims
pub mod Once
mod Tests
use saa_s_governance_layer_r.Common.{
  ℕ, ◌+◌, ◌≡◌, ◌⊎◌, Bool, true, false, ◌||◌, List, [], ◌∷◌, ◌++◌, Option, none, some, Text, codes,
  text_eq, pair_eq, ◌==◌, Dict, lookup, insert, get_or, is_empty, if◌then◌else◌, map,
}
use saa_s_governance_layer_r.Billing.{BillingLedgerEntry}

-- What a conditional `put_item` answers.
pub data PutItem : Type 0 where
  created exists failed : PutItem

abbrev pub StoredObject : Type 0
StoredObject = Text × List BillingLedgerEntry

pub record AwsServices : Type 1 where
  pub Cloud : Type 0
  pub put_item : Cloud → (request_id tenant_id created_at : Text) → Cloud × PutItem
  pub put_object : Cloud → (key : Text) → List BillingLedgerEntry → Cloud × Bool
  pub update_item : Cloud → (request_id s3_key : Text) → Cloud × Bool
  -- Whether the table has an item under a request id, and the objects of the bucket.
  pub known : Cloud → (request_id : Text) → Bool
  pub objects : Cloud → List StoredObject
  pub objects-put_item : (c : Cloud) (i t d : Text) → objects (put_item c i t d).0 ≡ objects c
  pub put_item-created :
      (c : Cloud) (i t d : Text)
      → (put_item c i t d).1 ≡ created
      → (known c i ≡ false) × ((j : Text) → known (put_item c i t d).0 j ≡ ((i == j) || known c j))
  pub put_item-exists :
      (c : Cloud) (i t d : Text)
      → (put_item c i t d).1 ≡ exists
      → (known c i ≡ true) × ((j : Text) → known (put_item c i t d).0 j ≡ known c j)
  pub put_item-failed :
      (c : Cloud) (i t d j : Text)
      → (put_item c i t d).1 ≡ failed
      → known c j ≡ true
      → known (put_item c i t d).0 j ≡ true
  pub known-put_object :
      (c : Cloud) (key : Text) (es : List BillingLedgerEntry) (j : Text)
      → known (put_object c key es).0 j ≡ known c j
  pub put_object-stored :
      (c : Cloud) (key : Text) (es : List BillingLedgerEntry)
      → (put_object c key es).1 ≡ true
      → objects (put_object c key es).0 ≡ objects c ++ (key, es) ∷ []
  -- A call that fails may have stored the object.
  pub put_object-failed :
      (c : Cloud) (key : Text) (es : List BillingLedgerEntry)
      → (put_object c key es).1 ≡ false
      → (objects (put_object c key es).0 ≡ objects c)
        ⊎ (objects (put_object c key es).0 ≡ objects c ++ (key, es) ∷ [])
  pub objects-update_item : (c : Cloud) (i key : Text) → objects (update_item c i key).0 ≡ objects c
  pub known-update_item :
      (c : Cloud) (i key j : Text) → known c i ≡ true → known (update_item c i key).0 j ≡ known c j

-- An entry before the others, if there was no exception.
abbrev pub with_entry :
    BillingLedgerEntry → Option (List BillingLedgerEntry) → Option (List BillingLedgerEntry)
with_entry e none = none
with_entry e (some claimed) = some (e ∷ claimed)

-- A tenant and an hour, and the entries that belong to them.
abbrev pub Partition : Type 0
Partition = Text × Text

abbrev pub Partitions : Type 0
Partitions = Dict Partition (List BillingLedgerEntry)

-- `aws_dynamodb_table` is given, and `aws_s3_prefix`, which ends in a slash.
pub record AwsSettings : Type 0 where
  pub has_table : Bool
  pub s3_prefix : Text

-- `hour_path` gives `year=.../month=.../day=.../hour=...` of a time, and `batch_name` the time and
-- the id in the name of a partition's object.
module _ (aws : AwsServices) (settings : AwsSettings) (hour_path : Text → Text)
    (batch_name : Partition → Text) where
  open aws use {Cloud}

  abbrev pub partition_of : BillingLedgerEntry → Partition
  partition_of e = (e.tenant_id, hour_path e.created_at)

  -- `by_partition[partition].append(entry)` for every entry
  unfoldable pub by_partition : Partitions → List BillingLedgerEntry → Partitions
  by_partition groups [] = groups
  by_partition groups (e ∷ es) =
      let p = partition_of e in
      by_partition (insert p (get_or (lookup p groups) [] ++ e ∷ []) groups) es

  -- `_claim_aws_request_id`; `none` is an exception.
  unfoldable pub claim : Cloud → BillingLedgerEntry → Cloud × Option Bool
  claim c e =
      let put = aws.put_item c e.request_id e.tenant_id e.created_at in
      if settings.has_table
      then (put.0, elim put.1 [ created ↦ some true | exists ↦ some false | failed ↦ none ])
      else (c, some true)

  -- `[entry for entry in entries if self._claim_aws_request_id(entry)]`
  unfoldable pub claim_all :
      Cloud → List BillingLedgerEntry → Cloud × Option (List BillingLedgerEntry)
  unfolding claim
  claim_all c [] = (c, some [])
  claim_all c (e ∷ es) =
      let first = claim c e in
      let rest = claim_all first.0 es in
      elim first.1 [
        | none ↦ (first.0, none)
        | some false ↦ rest
        | some true ↦ (rest.0, with_entry e rest.1)
      ]

  -- `_mark_aws_request_complete` for every claimed entry; `false` is an exception.
  unfoldable pub mark_all : Cloud → (s3_key : Text) → List BillingLedgerEntry → Cloud × Bool
  mark_all c key [] = (c, true)
  mark_all c key (e ∷ es) =
      let first = aws.update_item c e.request_id key in
      let rest = mark_all first.0 key es in
      if settings.has_table then (if first.1 then rest else (first.0, false)) else (c, true)

  abbrev pub object_key : Partition → Text
  object_key p =
      settings.s3_prefix
      ++ (codes "tenant_id="
          ++ (p.0 ++ b'/' ∷ (p.1 ++ (codes "/batch_ts=" ++ (batch_name p ++ codes ".jsonl")))))

  -- The object of the claimed entries, and their completion.
  unfoldable pub write_claimed : Cloud → Partition → List BillingLedgerEntry → Cloud × Bool
  unfolding mark_all
  write_claimed c p [] = (c, true)
  write_claimed c p (e ∷ claimed) =
      let put = aws.put_object c (object_key p) (e ∷ claimed) in
      if put.1 then mark_all put.0 (object_key p) (e ∷ claimed) else (put.0, false)

  unfoldable pub flush_partition : Cloud → Partition → List BillingLedgerEntry → Cloud × Bool
  unfolding claim_all write_claimed
  flush_partition c p entries =
      let claims = claim_all c entries in
      elim claims.1 [ none ↦ (claims.0, false) | some claimed ↦ write_claimed claims.0 p claimed ]

  unfoldable pub flush_partitions : Cloud → Partitions → Cloud × Bool
  unfolding flush_partition
  flush_partitions c [] = (c, true)
  flush_partitions c ((p, entries) ∷ groups) =
      let first = flush_partition c p entries in
      let rest = flush_partitions first.0 groups in if first.1 then rest else (first.0, false)

  -- `_flush_s3_batch`
  unfoldable pub flush_s3_batch : Cloud → List BillingLedgerEntry → Cloud × Bool
  unfolding flush_partitions by_partition
  flush_s3_batch c batch = flush_partitions c (by_partition [] batch)
