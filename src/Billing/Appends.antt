-- ===== src/Billing/Appends.antt =====
-- Appending a record: the outcomes of `append`.
use saa_s_governance_layer_r.Common.{
  ◌+◌, ◌≤◌, ◌≡◌, refl, inl, inr, true, false, [], ◌∷◌, ◌++◌, Text, text_eq, ==-refl, length,
  length-append, contains, arith, Bool-cases,
}
use saa_s_governance_layer_r.Settings.{bills_usage, is_aws_native}
use saa_s_governance_layer_r.Billing.{
  BillingLedger, BillingLedgerEntry, BoundedLruSet, AppendResult, not_billed, duplicate, accepted,
  queue_full, add_if_absent, discard, enqueue, append, is_full, with_seen,
}
use saa_s_governance_layer_r.Billing.Replay.{IsValid, add_if_absent-IsValid}

-- The queue respects its bound; the replay memory has room and is well formed.
pub record IsSound (l : BillingLedger) : Type 0 where
  pub positive : 1 ≤ l.queue_max_records
  pub bounded : length l.queue ≤ l.queue_max_records
  pub room : 1 ≤ l.seen_request_ids.max_size
  pub memory : IsValid l.seen_request_ids

-- The entry as it is stored: with the sink of the ledger's mode.
abbrev pub stored : BillingLedger → BillingLedgerEntry → BillingLedgerEntry
stored l e = record e { aws_sink = is_aws_native l.mode }

-- What a call of `append` did.
pub data Outcome (l : BillingLedger) (e : BillingLedgerEntry) (r : BillingLedger × AppendResult)
    : Type 0 where
  is_off : bills_usage l.mode ≡ false → r.1 ≡ not_billed → r.0 ≡ l → Outcome l e r
  was_seen :
      contains l.seen_request_ids.items e.request_id ≡ true
      → r.1 ≡ duplicate
      → r.0.queue ≡ l.queue
      → Outcome l e r
  was_full :
      length l.queue ≡ l.queue_max_records
      → r.1 ≡ queue_full
      → r.0.queue ≡ l.queue
      → contains r.0.seen_request_ids.items e.request_id ≡ false
      → Outcome l e r
  was_taken :
      length l.queue + 1 ≤ l.queue_max_records
      → r.1 ≡ accepted
      → r.0.queue ≡ l.queue ++ stored l e ∷ []
      → contains r.0.seen_request_ids.items e.request_id ≡ true
      → Outcome l e r

max_size-add : (s : BoundedLruSet) (k : Text) → (add_if_absent s k).0.max_size ≡ s.max_size
unfolding add_if_absent
max_size-add s k = ground arith

add_if_absent-stale :
    (s : BoundedLruSet) (k : Text) → (add_if_absent s k).1 ≡ false → contains s.items k ≡ true
unfolding add_if_absent
add_if_absent-stale s k h = ground arith

module _ (l : BillingLedger) (e : BillingLedgerEntry) (ok : IsSound l) where
  abbrev remembering : BillingLedger
  remembering = with_seen l (add_if_absent l.seen_request_ids e.request_id).0

  remembers : IsValid remembering.seen_request_ids × (1 ≤ remembering.seen_request_ids.max_size)
  remembers = (
    (add_if_absent-IsValid l.seen_request_ids e.request_id ok.room ok.memory).0,
    rw (max_size-add l.seen_request_ids e.request_id) ok.room,
  )

  -- The cases of `enqueue`, on the ledger that has just remembered the id.
  enqueue-Outcome :
      Outcome l e (enqueue remembering (stored l e)) × IsSound (enqueue remembering (stored l e)).0
  unfolding enqueue discard
  enqueue-Outcome =
      let forgot =
        add_if_absent-IsValid remembering.seen_request_ids e.request_id remembers.1 remembers.0 in
      elim (Bool-cases (is_full remembering)) [
        | inl full ↦ rw full (
          was_full (ground (arith, ok.bounded)) refl refl
              (rw (forgot.4 e.request_id) (ground (arith, ==-refl e.request_id))),
          record {
            positive = ok.positive;
            bounded = ok.bounded;
            room = remembers.1;
            memory = forgot.3;
          },
        )
        | inr free ↦ rw free (
          was_taken (ground (arith, ok.positive)) refl refl
              (add_if_absent-IsValid l.seen_request_ids e.request_id ok.room ok.memory).2,
          record {
            positive = ok.positive;
            bounded = ground (arith, length-append l.queue (stored l e ∷ []), ok.positive);
            room = remembers.1;
            memory = remembers.0;
          },
        )
      ]

-- Every call of `append` on a sound ledger does one of four things and leaves the ledger sound: with
-- billing off nothing changes; a remembered id is a duplicate and queues nothing; with the queue at its
-- bound nothing is queued and the id is forgotten, so that it can be tried again; otherwise the entry
-- is queued last, with the sink of the mode, and its id is remembered.
pub append-Outcome :
    (l : BillingLedger) (e : BillingLedgerEntry)
    → IsSound l
    → Outcome l e (append l e) × IsSound (append l e).0
unfolding append
append-Outcome l e ok = elim (Bool-cases (bills_usage l.mode)) [
  | inr off ↦ rw off (is_off off refl refl, ok)
  | inl on ↦ elim (Bool-cases (add_if_absent l.seen_request_ids e.request_id).1) [
    | inl fresh ↦ rw (on, fresh) (enqueue-Outcome l e ok)
    | inr old ↦
        rw (on, old)
          (
            was_seen (add_if_absent-stale l.seen_request_ids e.request_id old) refl refl,
            record {
              positive = ok.positive;
              bounded = ok.bounded;
              room = (remembers l e ok).1;
              memory = (remembers l e ok).0;
            },
          )
  ]
]
