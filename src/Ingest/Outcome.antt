-- ===== src/Ingest/Outcome.antt =====
-- The whole handler of src/ingest.rs: its two outcomes, the metrics that it publishes, and which
-- sensors it makes buckets for.
use hazshield_ingest.Prelude.{
  ◌↔◌, ltb→lt, ltb→le, ap, ℕ, ◌+◌, ◌≤◌, ◌<◌, ◌≡◌, refl, Bool, List, [], ◌∷◌, lookup, length,
  collect_some, arith, ◌∙◌, ltb, lt→ltb, Bool-cases, inl, inr,
}
use hazshield_ingest.Platform.{Platform}
use hazshield_ingest.Types.{warn, critical, Reading, ReadingBatch}
use hazshield_ingest.Metrics.{published}
use hazshield_ingest.Registry.{Registry}
use hazshield_ingest.Ingest.{ingest_readings, ingest_batch, is_degraded, started, publish, status}
use hazshield_ingest.Ingest.Gateway.{
  Services, IngestSummary, Work, AppState, ok, err, batch_too_large,
}
use hazshield_ingest.Ingest.Delivery.{violation_in, hot_part, Delivered, ingest_readings-Delivered}
use hazshield_ingest.Ingest.Untouched.{metrics-judge}
use hazshield_ingest.Ingest.Counts.{count_severity, ingest_readings-Counted}

module _ {p : Platform} (e : Services p) where
  published-ingest_readings :
      (reg : Registry p) (degraded : Bool) (clock : ℕ → ℕ) (i : ℕ) (rs : List (Reading p))
      (w : Work e)
      → published (ingest_readings e reg degraded clock i rs w).metrics ≡ published w.metrics
  unfolding ingest_readings
  published-ingest_readings reg degraded clock i [] w = refl
  published-ingest_readings reg degraded clock i (r ∷ rs) w =
      published-ingest_readings reg degraded clock (i + 1) rs _
      ∙ metrics-judge e published (λ m. refl) (λ m. refl) (λ m. refl) degraded (clock i) r w
          (lookup r.sensor_id reg.sensors)

  -- What a handled batch of `n` readings means, for the answer's summary and the state.
  pub record Handled (s : AppState p) (batch : ReadingBatch p) (w : Work e) (sum : IngestSummary)
      (w' : Work e) : Type 0 where
    pub total :
        sum.accepted + sum.rejected_unknown + sum.rejected_inactive + sum.rejected_invalid
        ≡ length batch.readings
    pub warnings :
        sum.violations_warn
        ≡ count_severity warn (collect_some (violation_in s.registry) batch.readings)
    pub criticals :
        sum.violations_critical
        ≡ count_severity critical (collect_some (violation_in s.registry) batch.readings)
    pub violations_accepted : sum.violations_warn + sum.violations_critical ≤ sum.accepted
    pub limited_accepted : sum.rate_limited ≤ sum.accepted
    pub mode : sum.degraded ≡ is_degraded e s w
    pub delivered :
        Delivered e
          (collect_some (violation_in s.registry) batch.readings)
          (hot_part e w)
          (hot_part e w')
    -- the readings counted by result are the batch less the values that are not finite
    pub by_result :
        w'.metrics.readings_accepted + w'.metrics.readings_unknown_sensor
          + w'.metrics.readings_inactive_sensor + sum.rejected_invalid
        ≡ w.metrics.readings_accepted
          + w.metrics.readings_unknown_sensor
          + w.metrics.readings_inactive_sensor
          + length batch.readings
    pub warn_metric : w'.metrics.violations_warn ≡ w.metrics.violations_warn + sum.violations_warn
    pub critical_metric :
        w'.metrics.violations_critical ≡ w.metrics.violations_critical + sum.violations_critical

  module _ (s : AppState p) (clock : ℕ → ℕ) (batch : ReadingBatch p) (w : Work e) where
    abbrev looped : Work e
    looped = ingest_readings e s.registry (is_degraded e s w) clock 0 batch.readings (started e s w)

    looped-Handled :
        Handled s batch w looped.sum
          (record looped { metrics = publish e looped.sum looped.metrics })
    looped-Handled =
        let c =
          ingest_readings-Counted e s.registry (is_degraded e s w) clock 0 batch.readings
            (started e s w) in
        let m =
          published-ingest_readings s.registry (is_degraded e s w) clock 0 batch.readings
            (started e s w) in
        record {
          total = omega (arith, c.total);
          warnings = omega (arith, c.warnings);
          criticals = omega (arith, c.criticals);
          violations_accepted = omega (arith, c.among_accepted);
          limited_accepted = omega (arith, c.limited_among_accepted);
          mode = c.degraded_kept;
          delivered =
              ingest_readings-Delivered e s.registry (is_degraded e s w) clock 0 batch.readings
                (started e s w);
          by_result = ground (arith, c.total, m);
          warn_metric = ground (arith, m);
          critical_metric = ground (arith, m);
        }

    pub ingest_batch-Handled :
        length batch.readings ≤ s.max_batch_size
        → (sum : IngestSummary) × ((ingest_batch e s clock batch w).0 ≡ ok sum)
          × (status (ok sum) ≡ 200)
          × Handled s batch w sum (ingest_batch e s clock batch w).1
    unfolding ingest_batch status
    ingest_batch-Handled h = elim (Bool-cases (ltb s.max_batch_size (length batch.readings))) [
      | inl large ↦ absurd (ground arith)
      | inr small ↦ rw small (looped.sum, refl, refl, looped-Handled)
    ]

    ingest_batch_too_large :
        s.max_batch_size < length batch.readings
        → (ingest_batch e s clock batch w ≡ (
          err (batch_too_large (length batch.readings) s.max_batch_size),
          record w {
            metrics = record (w.metrics) { handler_seconds = w.metrics.handler_seconds + 1 };
          },
        ))
    unfolding ingest_batch
    ingest_batch_too_large h = rw (lt→ltb _ _ h) refl

    -- A batch is answered with 413 exactly when it has more readings than the limit, and with 200
    -- exactly when it has not. Refused, the error names its size and the limit, and the state is as it
    -- was, but for the handler's timer.
    pub status-ingest_batch :
        ((status (ingest_batch e s clock batch w).0 ≡ 413)
          ↔ (s.max_batch_size < length batch.readings))
        × ((status (ingest_batch e s clock batch w).0 ≡ 200)
            ↔ (length batch.readings ≤ s.max_batch_size))
        × (s.max_batch_size < length batch.readings
            → ingest_batch e s clock batch w ≡ (
              err (batch_too_large (length batch.readings) s.max_batch_size),
              record w {
                metrics = record (w.metrics) { handler_seconds = w.metrics.handler_seconds + 1 };
              },
            ))
    unfolding status
    status-ingest_batch = elim (Bool-cases (ltb s.max_batch_size (length batch.readings))) [
      | inl large ↦
          let over = ltb→lt _ _ large in
          rw (ingest_batch_too_large over) (
            (λ _. over, λ _. refl),
            (λ h. absurd (omega (arith, h)), λ h. absurd (omega (arith, h, over))),
            λ _. refl,
          )
      | inr small ↦
          let within = ltb→le _ _ small in
          let (sum, answer, _, _) = ingest_batch-Handled within in
          let code : status (ingest_batch e s clock batch w).0 ≡ 200 = ap status answer in
          (
            (λ h. absurd (omega (arith, h, code)), λ h. absurd (omega (arith, h, within))),
            (λ _. within, λ _. code),
            λ h. absurd (omega (arith, h, within)),
          )
    ]
