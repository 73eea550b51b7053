-- ===== src/Billing/Worker.antt =====
-- billing_ledger.py: the making of a ledger, its worker thread and its end. A round of the worker is
-- one turn of its loop; other threads append while a round writes its batch, as its attempt says.
use saa_s_governance_layer_r.Common.{
  ℕ, ◌*◌, ◌≤◌, ◌≡◌, refl, ap, ◌∙◌, Bool, true, not, ◌&&◌, List, [], ◌∷◌, ◌++◌, Option, Text,
  append_assoc, append-nil, is_some, length, Result, ok, ◌>>◌, guard, max, all, arith, both,
  is_empty,
}
use saa_s_governance_layer_r.Settings.{BillingMode, is_given, is_aws_native}
use saa_s_governance_layer_r.Billing.{
  BillingLedger, BillingLedgerEntry, SinkAnswer, Attempt, written, failed, take_batch, drop_batch,
  append_all, reached, with_reached, requeue_failed, flush_batch, flush, is_ledger_required,
}
use saa_s_governance_layer_r.Billing.Flushes.{take-drop, length-drop_batch, is_written}

pub data LedgerError : Type 0 where
  jsonl_path_required aws_s3_bucket_required : LedgerError

-- `__init__`, as far as the ledger's own state goes
unfoldable pub create :
    BillingMode
    → (jsonl_path aws_s3_bucket : Option Text)
    → (batch_max_records queue_max_records lru_max_request_ids : ℕ)
    → Result LedgerError BillingLedger
create mode jsonl_path aws_s3_bucket batch_max_records queue_max_records lru_max_request_ids =
    guard (not (is_ledger_required mode && not (is_some jsonl_path))) jsonl_path_required
    >> guard (not (is_aws_native mode && not (is_given aws_s3_bucket))) aws_s3_bucket_required
    >> ok (record {
      mode = mode;
      batch_max_records = batch_max_records;
      queue_max_records = queue_max_records;
      seen_request_ids = record { max_size = lru_max_request_ids; items = [] };
      queue = [];
      lines = [];
    })

-- One turn of the loop: an entry, what else there is up to the size of a batch, and its flush.
unfoldable pub worker_round : Attempt → BillingLedger → BillingLedger
worker_round attempt l =
    let size = max 1 l.batch_max_records in
    flush_batch attempt (record l { queue = drop_batch size l.queue }) (take_batch size l.queue)

-- `_worker_loop` until the stop event, with what the sink answered in each round
unfoldable pub worker_loop : List Attempt → BillingLedger → BillingLedger
unfolding worker_round
worker_loop [] l = l
worker_loop (attempt ∷ rounds) l = worker_loop rounds (worker_round attempt l)

-- `close`: the worker's last rounds, and one flush
unfoldable pub close : List Attempt → Attempt → BillingLedger → BillingLedger
unfolding worker_loop flush
close rounds attempt l = flush attempt (worker_loop rounds l)

-- The batch is written, and nobody appends meanwhile.
abbrev pub quiet : Attempt
quiet = record { answer = written; meanwhile = [] }

abbrev pub is_quiet : Attempt → Bool
is_quiet attempt = is_written attempt.answer && is_empty attempt.meanwhile

is_quiet_lem :
    (answer : SinkAnswer) (meanwhile : List BillingLedgerEntry)
    → is_quiet (record { answer = answer; meanwhile = meanwhile }) ≡ true
    → record { answer = answer; meanwhile = meanwhile } ≡ quiet
is_quiet_lem written [] h = refl
is_quiet_lem written (e ∷ meanwhile) h = cc h
is_quiet_lem (failed n) meanwhile h = cc h

flush_batch-written :
    (l : BillingLedger) (batch : List BillingLedgerEntry)
    → l.mode ≡ BillingMode.ledger_required
    → flush_batch quiet l batch ≡ record l { lines = l.lines ++ batch }
unfolding flush_batch append_all with_reached requeue_failed reached
flush_batch-written l [] mode = rw (append-nil l.lines) refl
flush_batch-written l (e ∷ batch) mode = rw mode refl

-- What the worker leaves once everything is written.
abbrev pub IsDrained : (l after : BillingLedger) → Type 0
IsDrained l after = (after.queue ≡ []) × (after.lines ≡ l.lines ++ l.queue)

no_entries : (queue : List BillingLedgerEntry) → length queue ≤ 0 → queue ≡ []
no_entries [] h = refl
no_entries (e ∷ queue) h = ground arith

-- In the local mode, while the file can be written and nothing is appended: after rounds enough for the queue, of which each
-- takes one batch and at least one entry, the queue is empty and its entries stand at the end of the
-- file, in order.
pub worker_loop-IsDrained :
    (rounds : List Attempt) (l : BillingLedger)
    → l.mode ≡ BillingMode.ledger_required
    → all is_quiet rounds ≡ true
    → length l.queue ≤ length rounds * max 1 l.batch_max_records
    → IsDrained l (worker_loop rounds l)
unfolding worker_loop worker_round
worker_loop-IsDrained [] l mode all_quiet enough =
    let none_left = no_entries l.queue (omega (arith, enough)) in
    (none_left, rw (none_left, append-nil l.lines) refl)
worker_loop-IsDrained (attempt ∷ rounds) l mode all_quiet enough =
    let (first, later) = both _ _ all_quiet in
    let same = is_quiet_lem attempt.answer attempt.meanwhile first in
    let size = max 1 l.batch_max_records in
    let batch = take_batch size l.queue in
    let rest = drop_batch size l.queue in
    let after = record l { queue = rest; lines = l.lines ++ batch } in
    let (empty, lines) =
      worker_loop-IsDrained rounds after mode later
        (grind (arith, length-drop_batch size l.queue, enough)) in
    rw (worker_loop, worker_round, same, flush_batch-written (record l { queue = rest }) batch mode)
      (
        empty,
        lines ∙ append_assoc l.lines batch rest ∙ ap (λ x. l.lines ++ x) (take-drop size l.queue),
      )
