-- ===== src/Metrics.antt =====
-- src/metrics.rs: the counters, as the sums of the increments that the code asks for.
-- A labelled counter is a field for each label; a histogram is the number of its observations.
pub mod Registration
use hazshield_ingest.Prelude.{ℕ}

pub record Metrics : Type 0 where
  -- ingest_readings_total by result
  pub readings_accepted : ℕ
  pub readings_unknown_sensor : ℕ
  pub readings_inactive_sensor : ℕ
  -- ingest_violations_total by severity
  pub violations_warn : ℕ
  pub violations_critical : ℕ
  pub batch_size : ℕ
  pub handler_seconds : ℕ
  pub warm_flushed_total : ℕ
  pub warm_flush_failures_total : ℕ
  pub warm_shed_total : ℕ
  -- warm_degraded_total by action
  pub warm_degraded_kept : ℕ
  pub warm_degraded_dropped : ℕ
  pub warm_buffered : ℕ
  pub warm_flush_seconds : ℕ
  pub hot_sent_total : ℕ
  pub hot_spilled_total : ℕ
  pub hot_replayed_total : ℕ
  pub hot_lost_total : ℕ
  pub hot_redis_up : ℕ

-- `Metrics::new`: every counter starts at zero.
abbrev pub new : Metrics
new = record {
  readings_accepted = 0;
  readings_unknown_sensor = 0;
  readings_inactive_sensor = 0;
  violations_warn = 0;
  violations_critical = 0;
  batch_size = 0;
  handler_seconds = 0;
  warm_flushed_total = 0;
  warm_flush_failures_total = 0;
  warm_shed_total = 0;
  warm_degraded_kept = 0;
  warm_degraded_dropped = 0;
  warm_buffered = 0;
  warm_flush_seconds = 0;
  hot_sent_total = 0;
  hot_spilled_total = 0;
  hot_replayed_total = 0;
  hot_lost_total = 0;
  hot_redis_up = 0;
}

-- The metrics that are written only at the end of the handler.
abbrev pub published : Metrics → ℕ × ℕ × ℕ × ℕ × ℕ
published m = (
  m.readings_accepted, m.readings_unknown_sensor, m.readings_inactive_sensor, m.violations_warn,
  m.violations_critical,
)
