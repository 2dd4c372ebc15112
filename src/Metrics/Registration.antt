-- ===== src/Metrics/Registration.antt =====
-- src/metrics.rs: `Metrics::new`, which makes the metrics and registers them. The `unwrap` of an error
-- is a panic, `none`. Buckets are in ten-thousandths.
mod Names
pub mod Documented
pub mod Complete
mod Tests
use Prim.Native.String.{String}
use hazshield_ingest.Prelude.{ℕ, Option, none, some, ◌>>=◌, List, [], ◌∷◌}

-- The prometheus crate: constructors of metrics, and a registry with the metrics registered in it.
pub record Prometheus : Type 1 where
  pub Metric : Type 0
  pub Registry : Type 0
  -- a name, a help text, and the labels of a vector or the buckets of a histogram
  pub int_counter : String → String → Option Metric
  pub int_counter_vec : String → String → List String → Option Metric
  pub int_gauge : String → String → Option Metric
  pub histogram : String → String → List ℕ → Option Metric
  pub registry : Registry
  pub register : Metric → Registry → Option Registry
  pub registered : Registry → List Metric
  pub name_of : Metric → String

module _ (x : Prometheus) where
  pub record Handles : Type 0 where
    pub registry : x.Registry
    pub readings : x.Metric
    pub violations : x.Metric
    pub batch_size : x.Metric
    pub handler_seconds : x.Metric
    pub warm_flushed_total : x.Metric
    pub warm_flush_failures_total : x.Metric
    pub warm_shed_total : x.Metric
    pub warm_degraded_total : x.Metric
    pub warm_buffered : x.Metric
    pub warm_flush_seconds : x.Metric
    pub hot_sent_total : x.Metric
    pub hot_spilled_total : x.Metric
    pub hot_replayed_total : x.Metric
    pub hot_lost_total : x.Metric
    pub hot_redis_up : x.Metric

  pub register_each : List x.Metric → x.Registry → Option x.Registry
  register_each [] registry = some registry
  register_each (c ∷ cs) registry = x.register c registry >>= register_each cs

  pub new : Option Handles
  new = do
    readings ←
        x.int_counter_vec "ingest_readings_total" "Readings by processing result" ("result" ∷ [])
    violations ←
        x.int_counter_vec "ingest_violations_total" "Threshold violations by severity"
          ("severity" ∷ [])
    batch_size ←
        x.histogram "ingest_batch_size" "Readings per batch"
          (100000 ∷ 500000 ∷ 1000000 ∷ 2500000 ∷ 5000000 ∷ 10000000 ∷ 20000000 ∷ [])
    handler_seconds ←
        x.histogram "ingest_handler_seconds" "Ingest handler latency"
          (5 ∷ 10 ∷ 25 ∷ 50 ∷ 100 ∷ 250 ∷ 500 ∷ 1000 ∷ [])
    warm_flushed_total ← x.int_counter "warm_flushed_rows_total" "Rows written via COPY"
    warm_flush_failures_total ← x.int_counter "warm_flush_failures_total" "Failed COPY flushes"
    warm_shed_total ← x.int_counter "warm_shed_rows_total" "Bulk rows shed during outage"
    warm_degraded_total ←
        x.int_counter_vec "warm_degraded_total" "Degraded-mode decisions" ("action" ∷ [])
    warm_buffered ← x.int_gauge "warm_buffered_rows" "Rows waiting in writer buffer"
    warm_flush_seconds ←
        x.histogram "warm_flush_seconds" "COPY flush latency"
          (10 ∷ 25 ∷ 50 ∷ 100 ∷ 250 ∷ 500 ∷ 1000 ∷ 2500 ∷ [])
    registry ←
        register_each
          (warm_flushed_total ∷ warm_flush_failures_total ∷ warm_shed_total ∷ warm_degraded_total
            ∷ warm_buffered ∷ warm_flush_seconds ∷ [])
          x.registry
    hot_sent_total ← x.int_counter "hot_violations_sent_total" "Violations XADDed to the stream"
    hot_spilled_total ←
        x.int_counter "hot_violations_spilled_total" "Violations written to spill file"
    hot_replayed_total ←
        x.int_counter "hot_violations_replayed_total" "Spilled violations replayed to stream"
    hot_lost_total ←
        x.int_counter "hot_violations_lost_total" "Violations LOST (spill unwritable) — must stay 0"
    hot_redis_up ← x.int_gauge "hot_redis_up" "1 when the hot lane has Redis"
    registry ←
        register_each
          (hot_sent_total ∷ hot_spilled_total ∷ hot_replayed_total ∷ hot_lost_total ∷ hot_redis_up
            ∷ readings ∷ violations ∷ batch_size ∷ handler_seconds ∷ [])
          registry
    some (record {
      registry = registry;
      readings = readings;
      violations = violations;
      batch_size = batch_size;
      handler_seconds = handler_seconds;
      warm_flushed_total = warm_flushed_total;
      warm_flush_failures_total = warm_flush_failures_total;
      warm_shed_total = warm_shed_total;
      warm_degraded_total = warm_degraded_total;
      warm_buffered = warm_buffered;
      warm_flush_seconds = warm_flush_seconds;
      hot_sent_total = hot_sent_total;
      hot_spilled_total = hot_spilled_total;
      hot_replayed_total = hot_replayed_total;
      hot_lost_total = hot_lost_total;
      hot_redis_up = hot_redis_up;
    })
