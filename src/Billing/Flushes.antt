-- ===== src/Billing/Flushes.antt =====
-- Flushing the queue: a batch is taken, written or queued again.
use saa_s_governance_layer_r.Common.{
  ℕ, ◌-◌, ◌≤◌, ◌≡◌, ◌⊎◌, ◌∙◌, inl, inr, refl, sym, ap, if◌then◌else◌, Bool, true, false, List, [],
  ◌∷◌, ◌++◌, length, length-append, arith, zero, suc,
}
use mathlib.Core.List.{append-nil}
use saa_s_governance_layer_r.Settings.{BillingMode}
use saa_s_governance_layer_r.Billing.{
  BillingLedger, BillingLedgerEntry, SinkAnswer, Attempt, written, failed, take_batch, drop_batch,
  requeue, reached, with_reached, requeue_failed, flush_batch, flush, append_all,
}
use saa_s_governance_layer_r.Billing.Arrivals.{Grows, requeue-room, append_all-Grows}

pub take-drop :
    (n : ℕ) (queue : List BillingLedgerEntry) → take_batch n queue ++ drop_batch n queue ≡ queue
unfolding take_batch drop_batch
take-drop zero queue = refl
take-drop (suc n) [] = refl
take-drop (suc n) (e ∷ queue) = rw (take-drop n queue) refl

pub length-drop_batch :
    (n : ℕ) (queue : List BillingLedgerEntry) → length (drop_batch n queue) ≡ length queue - n
unfolding drop_batch
length-drop_batch zero queue = omega arith
length-drop_batch (suc n) [] = omega arith
length-drop_batch (suc n) (e ∷ queue) = omega (arith, length-drop_batch n queue)

abbrev pub is_written : SinkAnswer → Bool
is_written written = true
is_written (failed n) = false

-- What one attempt to write `batch` leaves, with `rest` queued behind it.
pub record Flushed (batch rest : List BillingLedgerEntry) (attempt : Attempt)
    (l after : BillingLedger) : Type 0 where
  pub arrived : List BillingLedgerEntry
  pub kept : List BillingLedgerEntry
  pub dropped : List BillingLedgerEntry
  pub during : (append_all (record l { queue = rest }) attempt.meanwhile).queue ≡ rest ++ arrived
  pub lines : after.lines ≡ l.lines ++ reached attempt.answer batch
  pub queue : after.queue ≡ (rest ++ arrived) ++ kept
  pub put_back : kept ++ dropped ≡ (if is_written attempt.answer then [] else batch)
  pub full : (dropped ≡ []) ⊎ (length after.queue ≡ l.queue_max_records)
  pub bounded : length after.queue ≤ l.queue_max_records

-- What does not fit is what is left when the room is used up.
fits-cases :
    (n : ℕ) (batch : List BillingLedgerEntry)
    → (length (take_batch n batch) ≤ n)
      × ((drop_batch n batch ≡ []) ⊎ (length (take_batch n batch) ≡ n))
unfolding take_batch drop_batch
fits-cases zero batch = (omega arith, inr refl)
fits-cases (suc n) [] = (omega arith, inl refl)
fits-cases (suc n) (e ∷ batch) =
    let (most, ends) = fits-cases n batch in
    (
      omega (arith, most),
      elim ends [ inl none_left ↦ inl none_left | inr all_used ↦ inr (omega (arith, all_used)) ],
    )

module _ (meanwhile : List BillingLedgerEntry) (l : BillingLedger)
    (mode : l.mode ≡ BillingMode.ledger_required) (positive : 1 ≤ l.queue_max_records)
    (room : length l.queue ≤ l.queue_max_records) where
  abbrev grown : Grows l (append_all l meanwhile)
  grown = append_all-Grows l meanwhile positive room

  lines-with_reached :
      (answer : SinkAnswer) (batch : List BillingLedgerEntry)
      → (with_reached answer (append_all l meanwhile) batch).lines ≡ l.lines ++ reached answer batch
  unfolding with_reached
  lines-with_reached answer batch = rw (grown.mode ∙ mode, grown.lines) refl

  -- The queue has only grown when nothing is put back.
  grown-Flushed :
      (answer : SinkAnswer) (batch : List BillingLedgerEntry) (after : BillingLedger)
      → after.queue ≡ (append_all l meanwhile).queue
      → after.lines ≡ l.lines ++ reached answer batch
      → (if is_written answer then [] else batch) ≡ []
      → Flushed batch l.queue (record { answer = answer; meanwhile = meanwhile }) l after
  grown-Flushed answer batch after queue lines none_back = record {
    arrived = grown.arrived;
    kept = [];
    dropped = [];
    during = grown.queue;
    lines = lines;
    queue = queue ∙ grown.queue ∙ sym (append-nil (l.queue ++ grown.arrived));
    put_back = sym none_back;
    full = inl refl;
    bounded = rw queue grown.fits;
  }

  failed-Flushed :
      (n : ℕ) (batch : List BillingLedgerEntry) (mixed : BillingLedger)
      → mixed.queue ≡ (append_all l meanwhile).queue
      → mixed.lines ≡ l.lines ++ reached (failed n) batch
      → mixed.queue_max_records ≡ l.queue_max_records
      → Flushed batch l.queue
          (record { answer = failed n; meanwhile = meanwhile })
          l
          (requeue mixed batch)
  failed-Flushed n batch mixed queue lines bound =
      let free = l.queue_max_records - length mixed.queue in
      let fits : length mixed.queue ≤ l.queue_max_records = rw queue grown.fits in
      let (most, ends) = fits-cases free batch in
      let lengths = length-append mixed.queue (take_batch free batch) in
      rw (requeue-room mixed free batch (rw bound positive) (omega (arith, fits, bound))) (record {
        arrived = grown.arrived;
        kept = take_batch free batch;
        dropped = drop_batch free batch;
        during = grown.queue;
        lines = lines;
        queue = ap (λ x. x ++ take_batch free batch) (queue ∙ grown.queue);
        put_back = take-drop free batch;
        full = elim ends [
          | inl none_left ↦ inl none_left
          | inr all_used ↦ inr (omega (arith, all_used, lengths, fits))
        ];
        bounded = omega (arith, most, lengths, fits);
      })

  flush_batch-Flushed :
      (answer : SinkAnswer) (batch : List BillingLedgerEntry)
      → Flushed batch l.queue
          (record { answer = answer; meanwhile = meanwhile })
          l
          (flush_batch (record { answer = answer; meanwhile = meanwhile }) l batch)
  unfolding flush_batch with_reached requeue_failed reached take_batch
  flush_batch-Flushed written [] =
      grown-Flushed written [] _ refl (grown.lines ∙ sym (append-nil l.lines)) refl
  flush_batch-Flushed (failed zero) [] =
      grown-Flushed (failed zero) [] _ refl (grown.lines ∙ sym (append-nil l.lines)) refl
  flush_batch-Flushed (failed (suc n)) [] =
      grown-Flushed (failed (suc n)) [] _ refl (grown.lines ∙ sym (append-nil l.lines)) refl
  flush_batch-Flushed written (e ∷ batch) =
      grown-Flushed written (e ∷ batch) _ refl (lines-with_reached written (e ∷ batch)) refl
  flush_batch-Flushed (failed n) (e ∷ batch) =
      failed-Flushed n (e ∷ batch) _ refl (lines-with_reached (failed n) (e ∷ batch)) grown.bound

-- On a ledger of the local mode whose queue is within its bound of at least one, a flush takes the
-- first `batch_max_records` entries, so the queue is a batch and a rest, behind which other threads
-- may queue more while the batch is written. If the file takes the batch, it is appended to it in
-- order and the rest and what arrived stay queued. If the write fails, the file has a first part of
-- the batch, and the batch is queued again behind them, or a first part of it and the others are
-- dropped, which happens only if the queue is at its bound after the flush. In either case the queue
-- is within its bound.
pub flush-Flushed :
    (attempt : Attempt) (l : BillingLedger)
    → l.mode ≡ BillingMode.ledger_required
    → 1 ≤ l.queue_max_records
    → length l.queue ≤ l.queue_max_records
    → (batch : List BillingLedgerEntry) × (rest : List BillingLedgerEntry) × (l.queue
        ≡ batch ++ rest)
      × (length rest ≡ length l.queue - l.batch_max_records)
      × Flushed batch rest attempt l (flush attempt l)
unfolding flush
flush-Flushed attempt l mode positive h =
    let batch = take_batch l.batch_max_records l.queue in
    let rest = drop_batch l.batch_max_records l.queue in
    let lengths = length-drop_batch l.batch_max_records l.queue in
    let done =
      flush_batch-Flushed attempt.meanwhile (record l { queue = rest }) mode positive
        (omega (arith, lengths, h)) attempt.answer batch in
    (
      batch,
      rest,
      sym (take-drop l.batch_max_records l.queue),
      lengths,
      record {
        arrived = done.arrived;
        kept = done.kept;
        dropped = done.dropped;
        during = done.during;
        lines = done.lines;
        queue = done.queue;
        put_back = done.put_back;
        full = done.full;
        bounded = done.bounded;
      },
    )
