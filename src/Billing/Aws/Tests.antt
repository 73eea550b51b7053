-- ===== src/Billing/Aws/Tests.antt =====
-- The AWS mode on a table and a bucket in memory; the bucket can be out of order.
use saa_s_governance_layer_r.Common.{
  ◌≤◌, ◌≡◌, refl, Bool, true, false, List, [], ◌∷◌, ◌++◌, none, Text, codes, text_eq, text_beq,
  pair_eq, lookup, insert, contains, if◌then◌else◌, arith,
}
use saa_s_governance_layer_r.Billing.{BillingLedgerEntry}
use saa_s_governance_layer_r.Billing.Aws.{
  PutItem, created, exists, StoredObject, AwsServices, AwsSettings, Partition, flush_s3_batch,
  by_partition, claim, claim_all, mark_all, write_claimed, flush_partitions, flush_partition,
}
use saa_s_governance_layer_r.Billing.Aws.Claims.{occurrences, occurrences_in}
use saa_s_governance_layer_r.Billing.Aws.Once.{
  Written, flush_s3_batch-Written, run, run-at_most_once, stored,
}

record Memory : Type 0 where
  ids : List Text
  bucket : List StoredObject
  up : Bool

abbrev put_item : Memory → Text → Memory × PutItem
put_item c i = if contains c.ids i then (c, exists) else (record c { ids = i ∷ c.ids }, created)

abbrev put_object : Memory → Text → List BillingLedgerEntry → Memory × Bool
put_object c key es =
    if c.up then (record c { bucket = c.bucket ++ (key, es) ∷ [] }, true) else (c, false)

abbrev memory : AwsServices
memory = record {
  Cloud = Memory;
  put_item = (λ c i t d. put_item c i);
  put_object = put_object;
  update_item = (λ c i key. (c, true));
  known = (λ c i. contains c.ids i);
  objects = (λ c. c.bucket);
  objects-put_item = (λ c i t d. ground arith);
  put_item-created = (λ c i t d h. (ground arith, (λ j. ground arith)));
  put_item-exists = (λ c i t d h. (ground arith, (λ j. ground arith)));
  put_item-failed = (λ c i t d j h. ground arith);
  known-put_object = (λ c key es j. ground arith);
  put_object-stored = (λ c key es h. ground arith);
  put_object-failed = (λ c key es h. ground arith);
  objects-update_item = (λ c i key. refl);
  known-update_item = (λ c i key j h. refl);
}

abbrev entry_named : Text → BillingLedgerEntry
entry_named name = record {
  request_id = name;
  tenant_id = codes "tenant-b";
  user_id = codes "bob";
  model = codes "llama";
  adapter = none;
  usage = record { prompt_tokens = 1; completion_tokens = 1; total_tokens = 2 };
  aws_sink = true;
  created_at = codes "2026-01-01T10";
}

abbrev settings : AwsSettings
settings = record { has_table = true; s3_prefix = codes "billing-ledger/" }

abbrev hour_path : Text → Text
hour_path t = t

abbrev batch_name : Partition → Text
batch_name p = codes "1-a"

abbrev r1 : Text
r1 = codes "r1"

abbrev empty : Memory
empty = record { ids = []; bucket = []; up = true }

abbrev flushes : List ((Partition → Text) × List BillingLedgerEntry)
flushes =
    (batch_name, entry_named r1 ∷ entry_named (codes "r2") ∷ entry_named r1 ∷ [])
    ∷ (batch_name, entry_named r1 ∷ [])
    ∷ []

-- The bucket was out of order when `r1` was flushed, and is in order again.
abbrev claimed : Memory
claimed =
    record (flush_s3_batch memory settings hour_path batch_name (record empty { up = false })
      (entry_named r1 ∷ [])).0 { up = true }

enforcing : Unit {0}
unfolding flush_s3_batch by_partition claim claim_all mark_all write_claimed flush_partitions
    flush_partition run occurrences occurrences_in lookup insert text_beq
enforcing = tt

aws_tests :
    (stored memory settings hour_path r1 (run memory settings hour_path empty flushes) ≡ 1)
    × (stored memory settings hour_path (codes "r2") (run memory settings hour_path empty flushes)
        ≡ 1)
    × (claimed.bucket ≡ [])
    × ((run memory settings hour_path claimed flushes).bucket
        ≡ (
          codes "billing-ledger/tenant_id=tenant-b/2026-01-01T10/batch_ts=1-a.jsonl",
          entry_named (codes "r2") ∷ [],
        )
          ∷ [])
unfolding enforcing
aws_tests = (refl, refl, refl, refl)

flush_s3_batch-Written_example :
    Written memory settings hour_path batch_name r1
      (occurrences r1 (entry_named r1 ∷ []))
      empty
      (flush_s3_batch memory settings hour_path batch_name empty (entry_named r1 ∷ []))
flush_s3_batch-Written_example =
    flush_s3_batch-Written memory settings hour_path batch_name refl r1 empty (entry_named r1 ∷ [])

run-at_most_once_example :
    stored memory settings hour_path r1 (run memory settings hour_path empty flushes) ≤ 1
run-at_most_once_example = run-at_most_once memory settings hour_path refl r1 empty flushes refl
