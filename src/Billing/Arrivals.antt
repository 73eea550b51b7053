-- ===== src/Billing/Arrivals.antt =====
-- The queue while a batch is being written: what other threads append, and what is put back.
use saa_s_governance_layer_r.Common.{
  ℕ, ◌+◌, ◌≤◌, ◌≡◌, ◌∙◌, inl, inr, refl, sym, ap, true, false, List, [], ◌∷◌, ◌++◌, length,
  length-append, arith, zero, suc, Bool-cases,
}
use mathlib.Core.List.{append_assoc, append-nil}
use saa_s_governance_layer_r.Settings.{bills_usage, is_aws_native}
use saa_s_governance_layer_r.Billing.{
  BillingLedger, BillingLedgerEntry, take_batch, requeue, is_full, add_if_absent, append, with_seen,
  BoundedLruSet, append_all, enqueue,
}

is_full-bound :
    (l : BillingLedger)
    → 1 ≤ l.queue_max_records
    → length l.queue ≡ l.queue_max_records
    → is_full l ≡ true
is_full-bound l positive full = ground arith

is_full-room :
    (l : BillingLedger) (n : ℕ) → suc n + length l.queue ≡ l.queue_max_records → is_full l ≡ false
is_full-room l n room = ground arith

-- Of a batch that is put back, as much as there is room for is queued.
pub requeue-room :
    (l : BillingLedger) (n : ℕ) (batch : List BillingLedgerEntry)
    → 1 ≤ l.queue_max_records
    → n + length l.queue ≡ l.queue_max_records
    → requeue l batch ≡ record l { queue = l.queue ++ take_batch n batch }
unfolding requeue take_batch
requeue-room l zero [] positive room = rw (append-nil l.queue) refl
requeue-room l (suc n) [] positive room = rw (append-nil l.queue) refl
requeue-room l zero (e ∷ batch) positive room =
    rw (is_full-bound l positive (omega (arith, room)), append-nil l.queue) refl
requeue-room l (suc n) (e ∷ batch) positive room =
    rw
      (
        is_full-room l n room,
        requeue-room (record l { queue = l.queue ++ e ∷ [] }) n batch positive
            (omega (arith, length-append l.queue (e ∷ []), room)),
        append_assoc l.queue (e ∷ []) (take_batch n batch),
      )
      refl

-- What calls of `append` leave of a ledger: some entries are queued behind the others.
pub record Grows (l after : BillingLedger) : Type 0 where
  pub arrived : List BillingLedgerEntry
  pub queue : after.queue ≡ l.queue ++ arrived
  pub mode : after.mode ≡ l.mode
  pub lines : after.lines ≡ l.lines
  pub bound : after.queue_max_records ≡ l.queue_max_records
  pub fits : length after.queue ≤ l.queue_max_records

Grows_none :
    (l : BillingLedger) (seen : BoundedLruSet)
    → length l.queue ≤ l.queue_max_records
    → Grows l (with_seen l seen)
Grows_none l seen h = record {
  arrived = [];
  queue = sym (append-nil l.queue);
  mode = refl;
  lines = refl;
  bound = refl;
  fits = h;
}

free_fits :
    (l : BillingLedger) (e : BillingLedgerEntry)
    → 1 ≤ l.queue_max_records
    → is_full l ≡ false
    → length (l.queue ++ e ∷ []) ≤ l.queue_max_records
free_fits l e positive free = ground (arith, length-append l.queue (e ∷ []))

append-Grows :
    (l : BillingLedger) (e : BillingLedgerEntry)
    → 1 ≤ l.queue_max_records
    → length l.queue ≤ l.queue_max_records
    → Grows l (append l e).0
unfolding append enqueue
append-Grows l e positive h = elim (Bool-cases (bills_usage l.mode)) [
  | inr off ↦ rw (append, off) (Grows_none l l.seen_request_ids h)
  | inl on ↦ elim (Bool-cases (add_if_absent l.seen_request_ids e.request_id).1) [
    | inr old ↦ rw (append, on, old) (Grows_none l _ h)
    | inl fresh ↦ elim (Bool-cases (is_full l)) [
      | inl full ↦ rw (append, on, fresh, enqueue, full) (Grows_none l _ h)
      | inr free ↦
          rw (append, on, fresh, enqueue, free)
            (record {
              arrived = record e { aws_sink = is_aws_native l.mode } ∷ [];
              queue = refl;
              mode = refl;
              lines = refl;
              bound = refl;
              fits = free_fits l (record e { aws_sink = is_aws_native l.mode }) positive free;
            })
    ]
  ]
]

pub append_all-Grows :
    (l : BillingLedger) (entries : List BillingLedgerEntry)
    → 1 ≤ l.queue_max_records
    → length l.queue ≤ l.queue_max_records
    → Grows l (append_all l entries)
unfolding append_all
append_all-Grows l [] positive h = Grows_none l l.seen_request_ids h
append_all-Grows l (e ∷ entries) positive h =
    let first = append-Grows l e positive h in
    let later =
      append_all-Grows (append l e).0 entries (rw first.bound positive)
        (rw first.bound first.fits) in
    record {
      arrived = first.arrived ++ later.arrived;
      queue =
          later.queue
          ∙ ap (λ x. x ++ later.arrived) first.queue
          ∙ append_assoc l.queue first.arrived later.arrived;
      mode = later.mode ∙ first.mode;
      lines = later.lines ∙ first.lines;
      bound = later.bound ∙ first.bound;
      fits = omega (arith, later.fits, first.bound);
    }
