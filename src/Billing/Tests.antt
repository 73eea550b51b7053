-- ===== src/Billing/Tests.antt =====
-- The ledger at sample data.
use saa_s_governance_layer_r.Common.{
  err, ◌≡◌, refl, true, false, List, [], ◌∷◌, none, some, Text, codes, text_eq, text_beq, contains,
  arith, not, ◌==◌, if◌then◌else◌, length, ◌++◌, ◌-◌, pos, negsuc,
}
use saa_s_governance_layer_r.Settings.{BillingMode}
use saa_s_governance_layer_r.Billing.{
  BoundedLruSet, BillingLedger, BillingLedgerEntry, add_if_absent, discard, append, flush,
  append_all, requeue, requeue_failed, reached, with_reached, Attempt, written, failed, int, bool,
  other, require_usage_tokens, accepted, duplicate, evict, enqueue,
}
use saa_s_governance_layer_r.Billing.Replay.{IsValid, add_if_absent-IsValid}
use saa_s_governance_layer_r.Billing.Appends.{Outcome, IsSound, append-Outcome}
use saa_s_governance_layer_r.Billing.Flushes.{Flushed, flush-Flushed}
use saa_s_governance_layer_r.Billing.Worker.{
  worker_loop, worker_round, close, quiet, create, jsonl_path_required, IsDrained,
  worker_loop-IsDrained,
}

abbrev entry_named : Text → BillingLedgerEntry
entry_named name = record {
  request_id = name;
  tenant_id = codes "tenant-a";
  user_id = codes "ann";
  model = codes "llama";
  adapter = none;
  usage = record { prompt_tokens = 3; completion_tokens = 4; total_tokens = 7 };
  aws_sink = false;
  created_at = codes "now";
}

abbrev memory : BoundedLruSet
memory = record { max_size = 2; items = codes "r1" ∷ codes "r2" ∷ [] }

abbrev ledger : BillingLedger
ledger = record {
  mode = BillingMode.ledger_required;
  batch_max_records = 1;
  queue_max_records = 3;
  seen_request_ids = memory;
  queue = entry_named (codes "r1") ∷ entry_named (codes "r2") ∷ [];
  lines = [];
}

memory-IsValid : IsValid memory
unfolding text_beq
memory-IsValid = record { unique = (refl, (refl, tt)); bounded = omega arith }

ledger-IsSound : IsSound ledger
ledger-IsSound = record {
  positive = omega arith;
  bounded = omega arith;
  room = omega arith;
  memory = memory-IsValid;
}

flushing : Unit {0}
unfolding append flush append_all requeue_failed reached with_reached requeue add_if_absent discard
    evict enqueue text_beq
flushing = tt

-- Two calls of `append` while a batch is written, of which the second finds the queue full.
abbrev r3_r4 : List BillingLedgerEntry
r3_r4 = entry_named (codes "r3") ∷ entry_named (codes "r4") ∷ []

abbrev taken : Attempt
taken = record { answer = written; meanwhile = entry_named (codes "r3") ∷ [] }

runs :
    ((append ledger (entry_named (codes "r3"))).1 ≡ accepted)
    × ((append ledger (entry_named (codes "r2"))).1 ≡ duplicate)
    × (length (flush taken ledger).queue ≡ 2)
    × (length (flush (record { answer = failed 0; meanwhile = r3_r4 }) ledger).queue ≡ 3)
    × ((add_if_absent memory (codes "r3")).0.items ≡ codes "r2" ∷ codes "r3" ∷ [])
unfolding flushing
runs = (refl, refl, refl, refl, refl)

usages :
    (require_usage_tokens (
        some (record {
          prompt_tokens = int (pos 3);
          completion_tokens = int (pos 4);
          total_tokens = int (pos 8);
        }))
      ≡ none)
    × (require_usage_tokens (
          some (record {
            prompt_tokens = bool true;
            completion_tokens = int (pos 4);
            total_tokens = int (pos 5);
          }))
        ≡ some (record { prompt_tokens = 1; completion_tokens = 4; total_tokens = 5 }))
    × (require_usage_tokens (
          some (record {
            prompt_tokens = other;
            completion_tokens = int (pos 4);
            total_tokens = int (negsuc 0);
          }))
        ≡ none)
unfolding require_usage_tokens
usages = (refl, refl, refl)

add_if_absent-IsValid_example :
    IsValid (add_if_absent memory (codes "r3")).0
    × ((add_if_absent memory (codes "r3")).1 ≡ not (contains memory.items (codes "r3")))
    × (contains (add_if_absent memory (codes "r3")).0.items (codes "r3") ≡ true)
    × IsValid (discard memory (codes "r3"))
    × ((k : Text)
        → contains (discard memory (codes "r3")).items k
          ≡ (if codes "r3" == k then false else contains memory.items k))
add_if_absent-IsValid_example =
    add_if_absent-IsValid memory (codes "r3") (omega arith) memory-IsValid

append-Outcome_example :
    Outcome ledger (entry_named (codes "r3")) (append ledger (entry_named (codes "r3")))
    × IsSound (append ledger (entry_named (codes "r3"))).0
append-Outcome_example = append-Outcome ledger (entry_named (codes "r3")) ledger-IsSound

abbrev refused : Attempt
refused = record { answer = failed 0; meanwhile = r3_r4 }

flush-Flushed_example :
    (batch : List BillingLedgerEntry) × (rest : List BillingLedgerEntry) × (ledger.queue
      ≡ batch ++ rest)
    × (length rest ≡ length ledger.queue - ledger.batch_max_records)
    × Flushed batch rest refused ledger (flush refused ledger)
flush-Flushed_example = flush-Flushed refused ledger refl (omega arith) (omega arith)

worker_loop-IsDrained_example : IsDrained ledger (worker_loop (quiet ∷ quiet ∷ []) ledger)
worker_loop-IsDrained_example =
    worker_loop-IsDrained (quiet ∷ quiet ∷ []) ledger refl refl (omega arith)

-- Two entries are queued, and a batch holds one: without a round of the worker, the second is lost.
closing :
    (length (close [] quiet ledger).lines ≡ 1)
    × (length (close (quiet ∷ []) quiet ledger).lines ≡ 2)
    × (create BillingMode.ledger_required none none 1 3 2 ≡ err jsonl_path_required)
unfolding close worker_loop worker_round flushing create
closing = (refl, refl, refl)
