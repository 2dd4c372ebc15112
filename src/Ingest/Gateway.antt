-- ===== src/Ingest/Gateway.antt =====
-- src/state.rs, and the summary and error types: the state that a handler works on.
use hazshield_ingest.Prelude.{ℕ, Bool, false}
use hazshield_ingest.Platform.{Platform}
use hazshield_ingest.Types.{Violation, StoredReading}
use hazshield_ingest.Metrics.{Metrics}
use hazshield_ingest.Limiter.{Bucket}
use hazshield_ingest.Limiter.Buckets.{BucketMap}
use hazshield_ingest.Lane.{Lane}
use hazshield_ingest.Registry.{Registry}

-- The libraries' objects that the handler calls: the limiter's map and the two channels.
pub record Services (p : Platform) : Type 1 where
  pub buckets : BucketMap (Bucket p)
  pub hot : Lane (Violation p)
  pub warm : Lane (StoredReading p)

pub record IngestSummary : Type 0 where
  pub accepted : ℕ
  pub rejected_unknown : ℕ
  pub rejected_inactive : ℕ
  pub violations_warn : ℕ
  pub violations_critical : ℕ
  pub rate_limited : ℕ
  pub rejected_invalid : ℕ
  pub degraded : Bool

abbrev pub default : IngestSummary
default = record {
  accepted = 0;
  rejected_unknown = 0;
  rejected_inactive = 0;
  violations_warn = 0;
  violations_critical = 0;
  rate_limited = 0;
  rejected_invalid = 0;
  degraded = false;
}

-- What a handler of one batch reads and writes: its summary, and the mutable fields of `AppState`.
pub record Work {p : Platform} (e : Services p) : Type 0 where
  pub sum : IngestSummary
  pub limiter : e.buckets.Map
  pub degrade_seq : ℕ
  pub hot_tx : e.hot.Chan
  pub warm_tx : e.warm.Chan
  pub metrics : Metrics

-- The fields of `AppState` that a handler only reads, the registry by its snapshot.
pub record AppState (p : Platform) : Type 0 where
  pub registry : Registry p
  pub max_batch_size : ℕ
  pub warm_capacity : ℕ

pub data IngestError : Type 0 where
  batch_too_large : ℕ → ℕ → IngestError

-- `Result<Json<IngestSummary>, IngestError>`
pub data Answer : Type 0 where
  ok : IngestSummary → Answer
  err : IngestError → Answer
