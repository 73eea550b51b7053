-- ===== src/Billing/Aws/Once.antt =====
-- The AWS mode of the ledger: no request id is written twice, in any history of flushes.
use saa_s_governance_layer_r.Common.{
  ℕ, ◌+◌, ◌≤◌, ◌≡◌, refl, ap, ◌∙◌, inl, inr, Bool, true, List, [], ◌∷◌, ◌++◌, Text, text_eq,
  pair_eq, arith, insert, lookup, get_or, Bool-cases, Option-cases,
}
use saa_s_governance_layer_r.Billing.{BillingLedgerEntry}
use saa_s_governance_layer_r.Billing.Aws.{
  AwsServices, AwsSettings, Partition, Partitions, partition_of, by_partition, claim_all, mark_all,
  object_key, write_claimed, flush_partition, flush_partitions, flush_s3_batch,
}
use saa_s_governance_layer_r.Billing.Aws.Claims.{
  flag, occurrences, occurrences_in, flag_le, reached_after, known_by, occurrences_in-append,
  occurrences-append, occurrences_in-insert, occurs_later, occurs_own, copies, claim_all-Claimed,
}

module _ (aws : AwsServices) (settings : AwsSettings) (hour_path : Text → Text)
    (batch_name : Partition → Text) where
  open aws use {Cloud, known, objects}

  -- A request id gains an entry only when it becomes known, and it stays known. If all went well, it
  -- gained one for becoming known, and is known if it stood in some of the `n`
  -- entries.
  pub record Written (rid : Text) (n : ℕ) (c : Cloud) (result : Cloud × Bool) : Type 0 where
    pub stays : flag (known c rid) ≤ flag (known result.0 rid)
    pub gained :
        copies aws settings hour_path batch_name rid result.0 + flag (known c rid)
        ≤ copies aws settings hour_path batch_name rid c + flag (known result.0 rid)
    pub exactly :
        result.1 ≡ true
        → copies aws settings hour_path batch_name rid result.0 + flag (known c rid)
          ≡ copies aws settings hour_path batch_name rid c + flag (known result.0 rid)
    pub reached : result.1 ≡ true → 1 ≤ n → flag (known result.0 rid) ≡ 1

  by_partition-occurrences :
      (rid : Text) (groups : Partitions) (es : List BillingLedgerEntry)
      → occurrences_in rid (by_partition aws settings hour_path batch_name groups es)
        ≡ occurrences_in rid groups + occurrences rid es
  unfolding by_partition occurrences
  by_partition-occurrences rid groups [] = omega arith
  by_partition-occurrences rid groups (e ∷ es) =
      let p = partition_of aws settings hour_path batch_name e in
      let old = get_or (lookup p groups) [] in
      omega (
        arith,
        by_partition-occurrences rid (insert p (old ++ e ∷ []) groups) es,
        occurrences_in-insert rid p (old ++ e ∷ []) groups,
        occurrences-append rid old (e ∷ []),
      )

  module _ (table : settings.has_table ≡ true) where
    mark_all_unchanged :
        (c : Cloud) (key : Text) (es : List BillingLedgerEntry)
        → ((j : Text) → 1 ≤ occurrences j es → known c j ≡ true)
        → (objects (mark_all aws settings hour_path batch_name c key es).0 ≡ objects c)
          × ((j : Text)
              → known (mark_all aws settings hour_path batch_name c key es).0 j ≡ known c j)
    unfolding mark_all
    mark_all_unchanged c key [] here = (refl, (λ j. refl))
    mark_all_unchanged c key (e ∷ es) here =
        let first = aws.update_item c e.request_id key in
        let keeps = λ (j : Text).
          aws.known-update_item c e.request_id key j (here e.request_id (occurs_own e es)) in
        let rest =
          mark_all_unchanged first.0 key es
            (λ j least. rw (keeps j) (here j (occurs_later j e es least))) in
        elim (Bool-cases first.1) [
          | inl went ↦
              rw (table, went, mark_all)
                (rest.0 ∙ aws.objects-update_item c e.request_id key, (λ j. rest.1 j ∙ keeps j))
          | inr raised ↦
              rw (table, raised, mark_all) (aws.objects-update_item c e.request_id key, keeps)
        ]

    -- What the object of some claimed entries adds to the bucket.
    write_claimed-copies :
        (rid : Text) (c : Cloud) (p : Partition) (es : List BillingLedgerEntry)
        → ((j : Text) → 1 ≤ occurrences j es → known c j ≡ true)
        → let result = write_claimed aws settings hour_path batch_name c p es in
          (known result.0 rid ≡ known c rid)
          × (copies aws settings hour_path batch_name rid result.0
              ≤ copies aws settings hour_path batch_name rid c + occurrences rid es)
          × (result.1 ≡ true
              → copies aws settings hour_path batch_name rid result.0
                ≡ copies aws settings hour_path batch_name rid c + occurrences rid es)
    unfolding write_claimed
    write_claimed-copies rid c p [] here =
        (refl, omega arith, (λ h. unfold occurrences in omega arith))
    write_claimed-copies rid c p (e ∷ es) here =
        let key = object_key aws settings hour_path batch_name p in
        let put = aws.put_object c key (e ∷ es) in
        let kept = λ (j : Text). aws.known-put_object c key (e ∷ es) j in
        let marks = mark_all_unchanged put.0 key (e ∷ es) (λ j least. kept j ∙ here j least) in
        let more = occurrences_in-append rid (objects c) (key, e ∷ es) in
        elim (Bool-cases put.1) [
          | inl stored ↦
              let size =
                ap (occurrences_in rid) (marks.0 ∙ aws.put_object-stored c key (e ∷ es) stored) in
              rw (stored, write_claimed)
                (
                  marks.1 rid ∙ kept rid,
                  omega (arith, size, more),
                  (λ h. omega (arith, size, more)),
                )
          | inr raised ↦
              rw (raised, write_claimed)
                (
                  kept rid,
                  elim (aws.put_object-failed c key (e ∷ es) raised) [
                    | inl none_new ↦ omega (arith, ap (occurrences_in rid) none_new)
                    | inr stored ↦ omega (arith, ap (occurrences_in rid) stored, more)
                  ],
                  (λ h. cc h),
                )
        ]

    flush_partition-Written :
        (rid : Text) (c : Cloud) (p : Partition) (es : List BillingLedgerEntry)
        → Written rid
            (occurrences rid es)
            c
            (flush_partition aws settings hour_path batch_name c p es)
    unfolding flush_partition
    flush_partition-Written rid c p es =
        let claims = claim_all aws settings hour_path batch_name c es in
        let own = claim_all-Claimed aws settings hour_path batch_name table rid c es in
        let before = ap (occurrences_in rid) own.same in
        elim (Option-cases claims.1) [
          | inl raised ↦
              rw (raised, flush_partition)
                (record {
                  stays = own.stays;
                  gained = omega (arith, own.stays, before);
                  exactly = (λ h. cc h);
                  reached = (λ h. cc h);
                })
          | inr (claimed, h) ↦
              let here = λ (j : Text) (least : 1 ≤ occurrences j claimed).
                known_by (known claims.0 j) (
                  omega (
                    arith,
                    (claim_all-Claimed aws settings hour_path batch_name table j c es).newly claimed
                        h,
                  )) in
              let (kept, most, exact) = write_claimed-copies rid claims.0 p claimed here in
              let added = own.newly claimed h in
              rw (h, flush_partition)
                (record {
                  stays = rw kept own.stays;
                  gained = rw kept (omega (arith, most, added, before));
                  exactly = (λ went. rw kept (omega (arith, exact went, added, before)));
                  reached = (λ went least. rw kept (own.reached claimed h least));
                })
        ]

    flush_partitions-Written :
        (rid : Text) (c : Cloud) (groups : Partitions)
        → Written rid
            (occurrences_in rid groups)
            c
            (flush_partitions aws settings hour_path batch_name c groups)
    unfolding flush_partitions occurrences_in
    flush_partitions-Written rid c [] = record {
      stays = omega arith;
      gained = omega arith;
      exactly = (λ went. refl);
      reached = (λ went least. omega arith);
    }
    flush_partitions-Written rid c ((p, es) ∷ groups) =
        let first = flush_partition aws settings hour_path batch_name c p es in
        let one = flush_partition-Written rid c p es in
        let rest = flush_partitions-Written rid first.0 groups in
        elim (Bool-cases first.1) [
          | inr raised ↦
              rw (raised, flush_partitions)
                (record {
                  stays = one.stays;
                  gained = one.gained;
                  exactly = (λ h. cc h);
                  reached = (λ h. cc h);
                })
          | inl went ↦
              rw (went, flush_partitions)
                (record {
                  stays = omega (arith, one.stays, rest.stays);
                  gained = omega (arith, one.gained, rest.gained);
                  exactly = (λ h. omega (arith, one.exactly went, rest.exactly h));
                  reached = (λ h least.
                      reached_after (occurrences rid es) (occurrences_in rid groups)
                        (flag (known first.0 rid)) _ (one.reached went) rest.stays
                        (flag_le (known _ rid)) (rest.reached h) least);
                })
        ]

    -- One flush, with a table. However it ends, a request id gains entries in the bucket at most as it
    -- becomes known to the table, so none if it was known before, and one that is known stays known.
    -- If it ends without an exception, the id gains exactly one for becoming known, and every
    -- request id of the batch is known.
    pub flush_s3_batch-Written :
        (rid : Text) (c : Cloud) (batch : List BillingLedgerEntry)
        → Written rid
            (occurrences rid batch)
            c
            (flush_s3_batch aws settings hour_path batch_name c batch)
    unfolding flush_s3_batch occurrences_in
    flush_s3_batch-Written rid c batch =
        let groups = by_partition aws settings hour_path batch_name [] batch in
        let w = flush_partitions-Written rid c groups in
        let size = by_partition-occurrences rid [] batch in
        record {
          stays = w.stays;
          gained = w.gained;
          exactly = w.exactly;
          reached = (λ went least. w.reached went (omega (arith, size, least)));
        }

module _ (aws : AwsServices) (settings : AwsSettings) (hour_path : Text → Text) where
  open aws use {Cloud, known, objects}

  -- Flushes one after the other, each with the names of its objects; an exception ends only its flush.
  unfoldable pub run : Cloud → List ((Partition → Text) × List BillingLedgerEntry) → Cloud
  run c [] = c
  run c ((batch_name, batch) ∷ later) =
      run (flush_s3_batch aws settings hour_path batch_name c batch).0 later

  -- The entries of a request id in the whole bucket.
  abbrev pub stored : Text → Cloud → ℕ
  stored rid c = occurrences_in rid (objects c)

  run-stored :
      settings.has_table ≡ true
      → (rid : Text) (c : Cloud) (flushes : List ((Partition → Text) × List BillingLedgerEntry))
      → (stored rid (run c flushes) + flag (known c rid)
          ≤ stored rid c + flag (known (run c flushes) rid))
        × (flag (known c rid) ≤ flag (known (run c flushes) rid))
  unfolding run
  run-stored table rid c [] = (omega arith, omega arith)
  run-stored table rid c ((batch_name, batch) ∷ later) =
      let one = flush_s3_batch-Written aws settings hour_path batch_name table rid c batch in
      let (gained, stays) =
        run-stored table rid (flush_s3_batch aws settings hour_path batch_name c batch).0 later in
      (omega (arith, one.gained, gained), omega (arith, one.stays, stays))

  -- With a table, whatever batches are flushed, however often an entry is queued again, and whichever
  -- calls of the two services fail: an empty bucket ends with at most one entry of each request id.
  pub run-at_most_once :
      settings.has_table ≡ true
      → (rid : Text) (c : Cloud) (flushes : List ((Partition → Text) × List BillingLedgerEntry))
      → objects c ≡ []
      → stored rid (run c flushes) ≤ 1
  unfolding occurrences_in
  run-at_most_once table rid c flushes empty = omega (
    arith,
    run-stored table rid c flushes,
    ap (occurrences_in rid) empty,
    flag_le (known (run c flushes) rid),
  )

  -- With a table, a request id that is claimed gains no entry by any later flush, also when the write
  -- that was to follow its claim failed and its entry is flushed again.
  pub run-known_unwritten :
      settings.has_table ≡ true
      → (rid : Text) (c : Cloud) (flushes : List ((Partition → Text) × List BillingLedgerEntry))
      → known c rid ≡ true
      → stored rid (run c flushes) ≤ stored rid c
  run-known_unwritten table rid c flushes claimed =
      omega (
        arith,
        run-stored table rid c flushes,
        ap flag claimed,
        flag_le (known (run c flushes) rid),
      )
