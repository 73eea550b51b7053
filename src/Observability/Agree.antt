-- ===== src/Observability/Agree.antt =====
-- The counters and the audit log tell the same.
use saa_s_governance_layer_r.Common.{
  ℕ, ◌+◌, ◌≡◌, refl, inl, inr, Bool, true, false, List, [], ◌∷◌, ◌++◌, Text, text_eq, pair_eq,
  Option-cases, some, some_unique, subst, nat_eq, ◌==◌, lookup, lookup-nil, get_or, arith,
}
use saa_s_governance_layer_r.Settings.{AppSettings, AuditSinkMode}
use saa_s_governance_layer_r.Metrics.{no_metrics, tenant_label}
use saa_s_governance_layer_r.Metrics.Counts.{
  request, observe, sum_requests, one_if, has_status, observe-Counts,
}
use saa_s_governance_layer_r.Observability.{
  Report, AuditEvent, AuditSink, Observed, audit_event_from_metering, emit, emit_observability,
  request_of,
}

-- A sink that keeps what it is given: a file, or a standard output whose logger lets INFO through.
abbrev pub is_kept : (info_enabled : Bool) → AuditSinkMode → Bool
is_kept info_enabled AuditSinkMode.disabled = false
is_kept info_enabled AuditSinkMode.stdout = info_enabled
is_kept info_enabled AuditSinkMode.jsonl = true

unfoldable pub sum_events : (AuditEvent → ℕ) → List AuditEvent → ℕ
sum_events f [] = 0
sum_events f (e ∷ es) = f e + sum_events f es

-- The sum of a number over all that a sink has written.
abbrev pub audited : (AuditEvent → ℕ) → AuditSink → ℕ
audited f sink = sum_events f sink.stdout + sum_events f sink.lines

sum_events-append :
    (f : AuditEvent → ℕ) (es : List AuditEvent) (e : AuditEvent)
    → sum_events f (es ++ e ∷ []) ≡ sum_events f es + f e
unfolding sum_events
sum_events-append f [] e = omega arith
sum_events-append f (x ∷ es) e = omega (arith, sum_events-append f es e)

-- What a sink has become that took an event.
abbrev Grown : (sink after : AuditSink) → AuditEvent → Type 0
Grown sink after e =
    (after.mode ≡ sink.mode) × ((f : AuditEvent → ℕ) → audited f after ≡ audited f sink + f e)

emit-Grown_at :
    (info_enabled writable : Bool) (mode : AuditSinkMode) (stdout lines : List AuditEvent)
    (after : AuditSink) (e : AuditEvent)
    → let sink : AuditSink = record { mode = mode; stdout = stdout; lines = lines } in
      is_kept info_enabled mode ≡ true
      → emit info_enabled writable sink e ≡ some after
      → Grown sink after e
unfolding emit
emit-Grown_at i w AuditSinkMode.disabled out ln after e kept h = cc kept
emit-Grown_at false w AuditSinkMode.stdout out ln after e kept h = cc kept
emit-Grown_at true w AuditSinkMode.stdout out ln after e kept h =
    subst (λ x. Grown (record { mode = AuditSinkMode.stdout; stdout = out; lines = ln }) x e)
      (some_unique refl h) (refl, (λ f. omega (arith, sum_events-append f out e)))
emit-Grown_at i false AuditSinkMode.jsonl out ln after e kept h = cc h
emit-Grown_at i true AuditSinkMode.jsonl out ln after e kept h =
    subst (λ x. Grown (record { mode = AuditSinkMode.jsonl; stdout = out; lines = ln }) x e)
      (some_unique refl h) (refl, (λ f. omega (arith, sum_events-append f ln e)))

emit-Grown :
    (info_enabled writable : Bool) (sink after : AuditSink) (e : AuditEvent)
    → is_kept info_enabled sink.mode ≡ true
    → emit info_enabled writable sink e ≡ some after
    → Grown sink after e
emit-Grown i w sink after e = emit-Grown_at i w sink.mode sink.stdout sink.lines after e

-- The counters agree with the audit log: for a tenant, a decision and a reason, for a status of the
-- upstream, and for the number of the requests.
pub record Agree (s : Observed) : Type 0 where
  pub kept : is_kept s.info_enabled s.audit_sink.mode ≡ true
  pub requests :
      (k : Text × (Text × Text))
      → get_or (lookup k s.slo_metrics.request_counts) 0
        ≡ audited
            (λ a. one_if ((tenant_label a.tenant_id, (a.decision, a.reason)) == k))
            s.audit_sink
  pub statuses :
      (code : ℕ)
      → get_or (lookup code s.slo_metrics.upstream_status_counts) 0
        ≡ audited (λ a. has_status code a.upstream_status_code) s.audit_sink
  pub handled : s.slo_metrics.latency_count ≡ audited (λ a. 1) s.audit_sink

emit_observability-Agree :
    (settings : AppSettings) (s : Observed) (report : Report)
    → Agree s
    → Agree (emit_observability settings s report)
unfolding emit_observability observe audit_event_from_metering sum_requests
emit_observability-Agree settings s report agree =
    let a = audit_event_from_metering settings report.event in
    let r = request_of report.event in
    let counts = observe-Counts s.slo_metrics (request r) in
    elim (Option-cases (emit s.info_enabled report.writable s.audit_sink a)) [
      | inl raised ↦
          rw (emit_observability, raised)
            (record {
              kept = agree.kept;
              requests = agree.requests;
              statuses = agree.statuses;
              handled = agree.handled;
            })
      | inr (sink, taken) ↦
          let (mode, grown) =
            emit-Grown s.info_enabled report.writable s.audit_sink sink a agree.kept taken in
          rw (emit_observability, taken)
            (record {
              kept = rw mode agree.kept;
              requests = (λ k. omega (
                arith,
                counts.requests k,
                agree.requests k,
                grown (λ x. one_if ((tenant_label x.tenant_id, (x.decision, x.reason)) == k)),
              ));
              statuses = (λ code. omega (
                arith,
                counts.statuses code,
                agree.statuses code,
                grown (λ x. has_status code x.upstream_status_code),
              ));
              handled = omega (arith, counts.handled, agree.handled, grown (λ x. 1));
            })
    ]

unfoldable pub run : AppSettings → Observed → List Report → Observed
unfolding emit_observability
run settings s [] = s
run settings s (report ∷ reports) = run settings (emit_observability settings s report) reports

-- Nothing has been reported to a sink of a mode.
abbrev pub unreported : (info_enabled : Bool) → AuditSinkMode → Observed
unreported info_enabled mode = record {
  info_enabled = info_enabled;
  metering_log = [];
  audit_sink = record { mode = mode; stdout = []; lines = [] };
  slo_metrics = no_metrics;
}

run-Agree_from :
    (settings : AppSettings) (s : Observed) (reports : List Report)
    → Agree s
    → Agree (run settings s reports)
unfolding run
run-Agree_from settings s [] agree = agree
run-Agree_from settings s (report ∷ reports) agree =
    run-Agree_from settings (emit_observability settings s report) reports
      (emit_observability-Agree settings s report agree)

-- If the audit sink is a file, or the standard output of a logger that lets INFO through, then after
-- any events, reported from the start, of which some may fail to be written and raise: the counter of
-- a tenant, a decision and a reason is the number of the audit records with these three, a missing or
-- empty tenant id read as `unknown`; the counter of an upstream status is the number of the records
-- with it; and the count of latencies is the number of all audit records.
pub run-Agree :
    (settings : AppSettings) (info_enabled : Bool) (mode : AuditSinkMode) (reports : List Report)
    → is_kept info_enabled mode ≡ true
    → Agree (run settings (unreported info_enabled mode) reports)
unfolding sum_events
run-Agree settings info_enabled mode reports kept =
    run-Agree_from settings (unreported info_enabled mode) reports (record {
      kept = kept;
      requests = (λ k. rw (lookup-nil {V = ℕ} k) (omega arith));
      statuses = (λ code. rw (lookup-nil {V = ℕ} code) (omega arith));
      handled = omega arith;
    })
