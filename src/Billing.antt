-- ===== src/Billing.antt =====
-- billing_ledger.py: the replay memory, the bounded queue, the appends and the flushes of the
-- ledger. The local JSONL file is the list of the entries that reached it; Aws has Amazon's services,
-- and Worker the worker thread.
pub mod Replay
pub mod Appends
pub mod Arrivals
pub mod Flushes
pub mod Aws
pub mod Worker
mod Tests
use saa_s_governance_layer_r.Common.{
  ℕ, ◌+◌, ◌-◌, Bool, true, false, not, ◌&&◌, ◌||◌, List, [], ◌∷◌, ◌++◌, Option, none, some, Text,
  text_eq, ◌==◌, ℤ, pos, negsuc, length, contains, filter, ltb, leb, nat_beq, if◌then◌else◌, zero,
  suc,
}
use saa_s_governance_layer_r.Settings.{BillingMode, bills_usage, is_aws_native}

pub record UsageTokens : Type 0 where
  pub prompt_tokens : ℕ
  pub completion_tokens : ℕ
  pub total_tokens : ℕ

-- A field of an upstream's `usage` object; `other` is a value of another type or none. In Python a
-- truth value is an `int`.
pub data UsageValue : Type 0 where
  int : ℤ → UsageValue
  bool : Bool → UsageValue
  other : UsageValue

pub record UsageObject : Type 0 where
  pub prompt_tokens : UsageValue
  pub completion_tokens : UsageValue
  pub total_tokens : UsageValue

-- `isinstance(value, int) and value >= 0`, with the number
abbrev pub natural : UsageValue → Option ℕ
natural (int (pos n)) = some n
natural (int (negsuc n)) = none
natural (bool true) = some 1
natural (bool false) = some 0
natural other = none

-- `require_usage_tokens`; `none` stands for a body that is no object or has no `usage` object.
unfoldable pub require_usage_tokens : Option UsageObject → Option UsageTokens
require_usage_tokens none = none
require_usage_tokens (some u) = elim (natural u.prompt_tokens) [
  | none ↦ none
  | some p ↦ elim (natural u.completion_tokens) [
    | none ↦ none
    | some c ↦ elim (natural u.total_tokens) [
      | none ↦ none
      | some t ↦
          if nat_beq (p + c) t
          then some (record { prompt_tokens = p; completion_tokens = c; total_tokens = t })
          else none
    ]
  ]
]

-- `_BoundedLRUSet`: the keys, least recently used first.
pub record BoundedLruSet : Type 0 where
  pub max_size : ℕ
  pub items : List Text

abbrev without : Text → List Text → List Text
without key items = filter (λ k. not (k == key)) items

-- `while len(items) > max_size: popitem(last=False)`
unfoldable pub evict : ℕ → List Text → List Text
evict max_size [] = []
evict max_size (k ∷ ks) =
    let rest = evict max_size ks in if ltb max_size (length (k ∷ ks)) then rest else k ∷ ks

unfoldable pub add_if_absent : BoundedLruSet → Text → BoundedLruSet × Bool
unfolding evict
add_if_absent s key =
    if contains s.items key
    then (record s { items = without key s.items ++ key ∷ [] }, false)
    else (record s { items = evict s.max_size (s.items ++ key ∷ []) }, true)

unfoldable pub discard : BoundedLruSet → Text → BoundedLruSet
discard s key = record s { items = without key s.items }

pub record BillingLedgerEntry : Type 0 where
  pub request_id : Text
  pub tenant_id : Text
  pub user_id : Text
  pub model : Text
  pub adapter : Option Text
  pub usage : UsageTokens
  pub aws_sink : Bool
  pub created_at : Text

pub record BillingLedger : Type 0 where
  pub mode : BillingMode
  pub batch_max_records : ℕ
  pub queue_max_records : ℕ
  pub seen_request_ids : BoundedLruSet
  pub queue : List BillingLedgerEntry
  pub lines : List BillingLedgerEntry

-- `Queue.full`: a bound of 0 is no bound.
abbrev pub is_full : BillingLedger → Bool
is_full l = ltb 0 l.queue_max_records && leb l.queue_max_records (length l.queue)

abbrev pub with_seen : BillingLedger → BoundedLruSet → BillingLedger
with_seen l s = record l { seen_request_ids = s }

-- What `append` answers; `queue_full` is the `BillingLedgerError`.
pub data AppendResult : Type 0 where
  not_billed duplicate accepted queue_full : AppendResult

-- The enqueueing of a request id that was not seen before.
unfoldable pub enqueue : BillingLedger → BillingLedgerEntry → BillingLedger × AppendResult
enqueue l entry =
    if is_full l
    then (with_seen l (discard l.seen_request_ids entry.request_id), queue_full)
    else (record l { queue = l.queue ++ entry ∷ [] }, accepted)

unfoldable pub append : BillingLedger → BillingLedgerEntry → BillingLedger × AppendResult
unfolding enqueue
append l entry =
    if not (bills_usage l.mode)
    then (l, not_billed)
    else (let (seen, added) = add_if_absent l.seen_request_ids entry.request_id in
        if not added
        then (with_seen l seen, duplicate)
        else enqueue (with_seen l seen) (record entry { aws_sink = is_aws_native l.mode }))

unfoldable pub take_batch : ℕ → List BillingLedgerEntry → List BillingLedgerEntry
take_batch zero queue = []
take_batch (suc n) [] = []
take_batch (suc n) (e ∷ queue) = e ∷ take_batch n queue

unfoldable pub drop_batch : ℕ → List BillingLedgerEntry → List BillingLedgerEntry
drop_batch zero queue = queue
drop_batch (suc n) [] = []
drop_batch (suc n) (e ∷ queue) = drop_batch n queue

-- The requeueing after a failed flush: it stops at the first entry that finds the queue full, and
-- that entry and those after it are lost.
unfoldable pub requeue : BillingLedger → List BillingLedgerEntry → BillingLedger
requeue l [] = l
requeue l (e ∷ batch) =
    let rest = requeue (record l { queue = l.queue ++ e ∷ [] }) batch in
    if is_full l then l else rest

abbrev pub is_ledger_required : BillingMode → Bool
is_ledger_required BillingMode.ledger_required = true
is_ledger_required _ = false

-- What the sink of the mode does with a batch: it takes the whole of it, or it raises after the first
-- `n` entries have reached it. In the local mode these are the whole lines of the text that the
-- failed write left in the file; a torn line behind them is not kept here.
pub data SinkAnswer : Type 0 where
  written : SinkAnswer
  failed : ℕ → SinkAnswer

-- An attempt to write a batch, with the calls of `append` that other threads make meanwhile.
pub record Attempt : Type 0 where
  pub answer : SinkAnswer
  pub meanwhile : List BillingLedgerEntry

unfoldable pub append_all : BillingLedger → List BillingLedgerEntry → BillingLedger
unfolding append
append_all l [] = l
append_all l (e ∷ entries) = append_all (append l e).0 entries

-- The entries that have reached the sink.
unfoldable pub reached : SinkAnswer → List BillingLedgerEntry → List BillingLedgerEntry
unfolding take_batch
reached written batch = batch
reached (failed n) batch = take_batch n batch

-- Only the local mode's sink is part of the state, the file's `lines`.
unfoldable pub with_reached : SinkAnswer → BillingLedger → List BillingLedgerEntry → BillingLedger
unfolding reached
with_reached answer l batch = record l {
  lines = if is_ledger_required l.mode then l.lines ++ reached answer batch else l.lines;
}

unfoldable pub requeue_failed : SinkAnswer → BillingLedger → List BillingLedgerEntry → BillingLedger
unfolding requeue
requeue_failed written l batch = l
requeue_failed (failed n) l batch = requeue l batch

-- `_flush_batch`; the puts of the requeueing are one step. An empty batch is not written, so that only
-- the other threads' calls change the ledger.
unfoldable pub flush_batch : Attempt → BillingLedger → List BillingLedgerEntry → BillingLedger
unfolding append_all with_reached requeue_failed
flush_batch attempt l [] = append_all l attempt.meanwhile
flush_batch attempt l (e ∷ batch) =
    requeue_failed attempt.answer
      (with_reached attempt.answer (append_all l attempt.meanwhile) (e ∷ batch)) (e ∷ batch)

-- `flush`, which `close` calls once when the worker has stopped.
unfoldable pub flush : Attempt → BillingLedger → BillingLedger
unfolding flush_batch take_batch drop_batch
flush attempt l =
    flush_batch attempt (record l { queue = drop_batch l.batch_max_records l.queue })
      (take_batch l.batch_max_records l.queue)
