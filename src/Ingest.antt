-- ===== src/Ingest.antt =====
-- src/ingest.rs and src/error.rs: the handler of POST /ingest. The state that handlers share is
-- passed along; `clock i` is the `Instant::now()` that the limiter reads at the batch's i-th reading.
pub mod Gateway
pub mod Threshold
pub mod Delivery
pub mod Counts
pub mod Storage
pub mod Outcome
pub mod Entries
pub mod Sampling
pub mod Untouched
pub mod Batch
mod Tests
use hazshield_ingest.Prelude.{
  ℕ, suc, ◌+◌, ◌/◌, ◌%◌, ◌^◌, Bool, true, false, Option, none, some, List, [], ◌∷◌, length, lookup,
  ltb, ◌==◌, if◌then◌else◌,
}
use hazshield_ingest.Platform.{Platform}
use hazshield_ingest.Types.{
  Severity, warn, critical, good, degraded_sampled, Reading, ReadingBatch, Violation, StoredReading,
}
use hazshield_ingest.Metrics.{Metrics}
use hazshield_ingest.Limiter.{allow}
use hazshield_ingest.Registry.{SensorMeta, Registry}
use Gateway.{
  Services, IngestSummary, Work, AppState, IngestError, batch_too_large, Answer, ok, err, default,
}

module _ {p : Platform} where
  -- The inline threshold evaluation. The alarm is high if `crit >= warn`, low otherwise.
  pub evaluate : SensorMeta p → p.F64 → Option Severity
  evaluate meta v =
      if p.le meta.warn_threshold meta.crit_threshold
      then (if p.le meta.crit_threshold v
          then some critical
          else if p.le meta.warn_threshold v
          then some warn
          else none)
      else if p.le v meta.crit_threshold
      then some critical
      else if p.le v meta.warn_threshold
      then some warn
      else none

  abbrev pub threshold_of : SensorMeta p → Severity → p.F64
  threshold_of meta critical = meta.crit_threshold
  threshold_of meta warn = meta.warn_threshold

  abbrev pub violation_of : SensorMeta p → Reading p → Severity → Violation p
  violation_of meta r sev = record {
    sensor_id = r.sensor_id;
    zone_id = meta.zone_id;
    severity = sev;
    value = r.value;
    threshold = threshold_of meta sev;
    ts = r.ts;
  }

abbrev pub count_violation : Severity → IngestSummary → IngestSummary
count_violation warn sum = record sum { violations_warn = sum.violations_warn + 1 }
count_violation critical sum = record sum { violations_critical = sum.violations_critical + 1 }

module _ {p : Platform} (e : Services p) where
  -- `hot_tx.send(violation).await`, and what the handler does with its result
  pub send_violation : Work e → Violation p → Work e
  send_violation w v =
      let (sent, hot_tx) = e.hot.send w.hot_tx v in
      record w {
        hot_tx = hot_tx;
        metrics =
            if sent
            then w.metrics
            else record (w.metrics) { hot_lost_total = w.metrics.hot_lost_total + 1 };
      }

  pub alarm : SensorMeta p → Reading p → Work e → Option Severity → Work e
  alarm meta r w none = w
  alarm meta r w (some sev) =
      send_violation (record w { sum = count_violation sev w.sum }) (violation_of meta r sev)

  abbrev count_dropped : Metrics → Metrics
  count_dropped m = record m { warm_degraded_dropped = m.warm_degraded_dropped + 1 }

  abbrev count_kept : Metrics → Metrics
  count_kept m = record m { warm_degraded_kept = m.warm_degraded_kept + 1 }

  -- `warm_tx.try_send(..)`; a full channel costs the reading
  pub try_store : Work e → StoredReading p → Work e
  try_store w row =
      let (taken, warm_tx) = e.warm.try_send w.warm_tx row in
      record w { warm_tx = warm_tx; metrics = if taken then w.metrics else count_dropped w.metrics }

  -- The warm lane's half of the loop body. `fetch_add` wraps, as an AtomicU64 does.
  pub store : Bool → Reading p → Work e → Work e
  store degraded r w =
      let n = w.degrade_seq in
      let next = record w { degrade_seq = (n + 1) % 2 ^ 64 } in
      if degraded
      then (if n % 10 == 0
          then try_store (record next { metrics = count_kept w.metrics })
              (record {
                ts = r.ts;
                sensor_id = r.sensor_id;
                value = r.value;
                quality = degraded_sampled;
              })
          else record next { metrics = count_dropped w.metrics })
      else try_store w
          (record { ts = r.ts; sensor_id = r.sensor_id; value = r.value; quality = good })

  -- What follows the limiter's answer.
  pub settle : Bool → SensorMeta p → Reading p → Bool → Work e → Work e
  settle degraded meta r true w =
      store degraded r (alarm meta r w (evaluate meta (p.widen r.value)))
  settle degraded meta r false w =
      alarm meta r (record w { sum = record (w.sum) { rate_limited = w.sum.rate_limited + 1 } })
        (evaluate meta (p.widen r.value))

  -- A reading of a known and active sensor with a finite value.
  pub accept : Bool → ℕ → SensorMeta p → Reading p → Work e → Work e
  accept degraded now meta r w =
      let (within_budget, limiter) = allow p e.buckets w.limiter r.sensor_id meta.sample_hz now in
      settle degraded meta r within_budget
        (record w { sum = record (w.sum) { accepted = w.sum.accepted + 1 }; limiter = limiter })

  -- The two checks of a known sensor's reading: `active`, then `is_finite`.
  pub screen : Bool → ℕ → SensorMeta p → Reading p → Bool → Bool → Work e → Work e
  screen degraded now meta r false finite w = record w {
    sum = record (w.sum) { rejected_inactive = w.sum.rejected_inactive + 1 };
  }
  screen degraded now meta r true false w = record w {
    sum = record (w.sum) { rejected_invalid = w.sum.rejected_invalid + 1 };
  }
  screen degraded now meta r true true w = accept degraded now meta r w

  pub judge : Bool → ℕ → Reading p → Work e → Option (SensorMeta p) → Work e
  judge degraded now r w none = record w {
    sum = record (w.sum) { rejected_unknown = w.sum.rejected_unknown + 1 };
  }
  judge degraded now r w (some meta) =
      screen degraded now meta r meta.active (p.is_finite r.value) w

  pub ingest_readings : Registry p → Bool → (ℕ → ℕ) → ℕ → List (Reading p) → Work e → Work e
  ingest_readings reg degraded clock i [] w = w
  ingest_readings reg degraded clock i (r ∷ readings) w =
      ingest_readings reg degraded clock (i + 1) readings
        (judge degraded (clock i) r w (lookup r.sensor_id reg.sensors))

  -- The counters of the batch are added to the metrics once, at the end.
  abbrev pub publish : IngestSummary → Metrics → Metrics
  publish sum m = record m {
    readings_accepted = m.readings_accepted + sum.accepted;
    readings_unknown_sensor = m.readings_unknown_sensor + sum.rejected_unknown;
    readings_inactive_sensor = m.readings_inactive_sensor + sum.rejected_inactive;
    violations_warn = m.violations_warn + sum.violations_warn;
    violations_critical = m.violations_critical + sum.violations_critical;
    handler_seconds = m.handler_seconds + 1;
  }

  -- The watermark: fewer free places than a fifth of the capacity.
  abbrev pub is_degraded : AppState p → Work e → Bool
  is_degraded s w = ltb (e.warm.capacity w.warm_tx) (s.warm_capacity / 5)

  -- The state in which the loop starts: the batch observed, the summary fresh.
  abbrev pub started : AppState p → Work e → Work e
  started s w = record w {
    sum = record default { degraded = is_degraded s w };
    metrics = record (w.metrics) { batch_size = w.metrics.batch_size + 1 };
  }

  abbrev pub finished : Work e → Work e
  finished w = record w { metrics = publish w.sum w.metrics }

  -- The whole handler. The timer of the early return is observed when it is dropped.
  pub ingest_batch : AppState p → (ℕ → ℕ) → ReadingBatch p → Work e → Answer × Work e
  ingest_batch s clock batch w =
      if ltb s.max_batch_size (length batch.readings)
      then (
        err (batch_too_large (length batch.readings) s.max_batch_size),
        record w {
          metrics = record (w.metrics) { handler_seconds = w.metrics.handler_seconds + 1 };
        },
      )
      else (let w' =
            ingest_readings s.registry (is_degraded s w) clock 0 batch.readings (started s w) in
          (ok w'.sum, finished w'))

-- `IntoResponse`: the HTTP status of an answer.
pub status : Answer → ℕ
status (ok sum) = 200
status (err (batch_too_large got max_size)) = 413
