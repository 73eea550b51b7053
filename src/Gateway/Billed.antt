-- ===== src/Gateway/Billed.antt =====
-- The billing of an upstream's reply in the handler of main.py.
use saa_s_governance_layer_r.Common.{
  ◌≡◌, refl, ◌≢◌, sym, subst, true, false, [], ◌∷◌, ◌++◌, Option, none, some, Text, text_eq,
  contains, if-true, ℕ,
}
use saa_s_governance_layer_r.Reason.{Reason}
use saa_s_governance_layer_r.Settings.{AppSettings, bills_usage}
use saa_s_governance_layer_r.Billing.{
  UsageTokens, BillingLedger, BillingLedgerEntry, AppendResult, not_billed, duplicate, accepted,
  queue_full, append,
}
use saa_s_governance_layer_r.Billing.Appends.{
  IsSound, Outcome, is_off, was_seen, was_full, was_taken, append-Outcome, stored,
}
use saa_s_governance_layer_r.Gateway.Handler.{after_append, bill_usage}

-- What has become of a reply's usage: recorded now, or earlier under the same id; or a denial.
pub data IsBilled (ledger : BillingLedger) (reported : Option UsageTokens)
    (entry : UsageTokens → BillingLedgerEntry) (r : BillingLedger × Option (ℕ × Reason))
    : Type 0 where
  unreported :
      reported ≡ none
      → r.0 ≡ ledger
      → r.1 ≡ some (502, Reason.billing_usage_missing)
      → IsBilled ledger reported entry r
  recorded_before :
      (usage : UsageTokens)
      → reported ≡ some usage
      → contains ledger.seen_request_ids.items (entry usage).request_id ≡ true
      → r.0.queue ≡ ledger.queue
      → r.1 ≡ none
      → IsBilled ledger reported entry r
  recorded_now :
      (usage : UsageTokens)
      → reported ≡ some usage
      → r.0.queue ≡ ledger.queue ++ stored ledger (entry usage) ∷ []
      → r.1 ≡ none
      → IsBilled ledger reported entry r
  refused :
      (usage : UsageTokens)
      → reported ≡ some usage
      → r.0.queue ≡ ledger.queue
      → r.1 ≡ some (503, Reason.billing_queue_full)
      → IsBilled ledger reported entry r

module _ (settings : AppSettings) (ledger : BillingLedger)
    (request_id tenant_id user_id model : Text) (adapter : Option Text) (created_at : Text) where
  abbrev pub entry_of : UsageTokens → BillingLedgerEntry
  entry_of usage = record {
    request_id = request_id;
    tenant_id = tenant_id;
    user_id = user_id;
    model = model;
    adapter = adapter;
    usage = usage;
    aws_sink = false;
    created_at = created_at;
  }

  abbrev billing : Option UsageTokens → BillingLedger × Option (ℕ × Reason)
  billing reported =
      bill_usage settings ledger request_id tenant_id user_id model adapter created_at reported

  bill_usage-none :
      bills_usage settings.billing_mode ≡ true
      → billing none ≡ (ledger, some (502, Reason.billing_usage_missing))
  unfolding bill_usage
  bill_usage-none on = if-true _ on

  bill_usage-some :
      (usage : UsageTokens)
      → bills_usage settings.billing_mode ≡ true
      → billing (some usage) ≡ after_append (append ledger (entry_of usage))
  unfolding bill_usage
  bill_usage-some usage on = if-true _ on

after_append-full :
    (r : BillingLedger × AppendResult)
    → r.1 ≡ queue_full
    → after_append r ≡ (r.0, some (503, Reason.billing_queue_full))
unfolding after_append
after_append-full (l, queue_full) h = refl
after_append-full (l, not_billed) h = cc
after_append-full (l, duplicate) h = cc
after_append-full (l, accepted) h = cc

after_append-fine :
    (r : BillingLedger × AppendResult) → r.1 ≢ queue_full → after_append r ≡ (r.0, none)
unfolding after_append
after_append-fine (l, queue_full) h = absurd (h refl)
after_append-fine (l, not_billed) h = refl
after_append-fine (l, duplicate) h = refl
after_append-fine (l, accepted) h = refl

after_append-IsBilled :
    (ledger : BillingLedger) (entry : UsageTokens → BillingLedgerEntry) (usage : UsageTokens)
    (r : BillingLedger × AppendResult)
    → bills_usage ledger.mode ≡ true
    → Outcome ledger (entry usage) r
    → IsBilled ledger (some usage) entry (after_append r)
after_append-IsBilled ledger entry usage r on (is_off off e same) = cc (on, off)
after_append-IsBilled ledger entry usage r on (was_seen seen e queue) =
    subst (IsBilled ledger (some usage) entry) (sym (after_append-fine r (λ f. cc (e, f))))
      (recorded_before usage refl seen queue refl)
after_append-IsBilled ledger entry usage r on (was_full full e queue absent) =
    subst (IsBilled ledger (some usage) entry) (sym (after_append-full r e))
      (refused usage refl queue refl)
after_append-IsBilled ledger entry usage r on (was_taken space e queue present) =
    subst (IsBilled ledger (some usage) entry) (sym (after_append-fine r (λ f. cc (e, f))))
      (recorded_now usage refl queue refl)

-- With a sound ledger of a mode that bills, a reply of the upstream without usable usage is denied
-- with 502 and leaves the ledger alone; one whose record finds the queue full is denied with 503 and
-- queues nothing; and a reply that is passed on has its record at the end of the queue, under the
-- request's tenant, user, model and adapter, unless its request id was remembered before.
pub bill_usage-IsBilled :
    (settings : AppSettings) (ledger : BillingLedger) (request_id tenant_id user_id model : Text)
    (adapter : Option Text) (created_at : Text) (reported : Option UsageTokens)
    → bills_usage settings.billing_mode ≡ true
    → ledger.mode ≡ settings.billing_mode
    → IsSound ledger
    → IsBilled ledger reported
        (entry_of settings ledger request_id tenant_id user_id model adapter created_at)
        (bill_usage settings ledger request_id tenant_id user_id model adapter created_at reported)
bill_usage-IsBilled settings ledger rid t u m adapter created_at none on mode sound =
    subst (IsBilled ledger none (entry_of settings ledger rid t u m adapter created_at))
      (sym (bill_usage-none settings ledger rid t u m adapter created_at on))
      (unreported refl refl refl)
bill_usage-IsBilled settings ledger rid t u m adapter created_at (some usage) on mode sound =
    let entry = entry_of settings ledger rid t u m adapter created_at in
    subst (IsBilled ledger (some usage) entry)
      (sym (bill_usage-some settings ledger rid t u m adapter created_at usage on))
      (after_append-IsBilled ledger entry usage (append ledger (entry usage)) (rw mode on)
        (append-Outcome ledger (entry usage) sound).0)
