-- ===== src/Fixtures.antt =====
-- The data that the runs share: a plant with three sensors, and a gateway in front of it.
use Prim.Native.String.{String}
use hazshield_ingest.Prelude.{ℕ, true, false, [], ◌∷◌}
use hazshield_ingest.Prelude.Int.{pos}
use hazshield_ingest.Platform.Sample.{Fl, inf, quarters, sample}
use hazshield_ingest.Types.{Reading, ReadingBatch, Violation, StoredReading}
use hazshield_ingest.Metrics
use hazshield_ingest.Limiter.{Bucket}
use hazshield_ingest.Limiter.Buckets.{BucketMap, pairs}
use hazshield_ingest.Lane.Sample.{bounded}
use hazshield_ingest.Registry.{SensorMeta, Registry, Row}
use hazshield_ingest.Ingest.Gateway.{Services, Work, AppState, default}

abbrev pub buckets : BucketMap (Bucket sample)
buckets = pairs (Bucket sample)

abbrev pub second : ℕ
second = 1000000000

-- 1 Hz, and a cap of five tokens
abbrev pub one_hz : Fl
one_hz = quarters 4

abbrev pub methane : SensorMeta sample
methane = record {
  zone_id = 1;
  warn_threshold = quarters 80;
  crit_threshold = quarters 160;
  active = true;
  sample_hz = one_hz;
}

abbrev pub oxygen : SensorMeta sample
oxygen = record {
  zone_id = 2;
  warn_threshold = quarters 76;
  crit_threshold = quarters 68;
  active = true;
  sample_hz = one_hz;
}

abbrev pub retired : SensorMeta sample
retired = record {
  zone_id = 2;
  warn_threshold = quarters 76;
  crit_threshold = quarters 68;
  active = false;
  sample_hz = one_hz;
}

abbrev pub plant : Registry sample
plant = record { sensors = (7, methane) ∷ (8, oxygen) ∷ (9, retired) ∷ []; generation = 1 }

abbrev pub row : ℕ → String → Row sample
row id status = record {
  sensor_id = id;
  zone_id = 1;
  warn_threshold = quarters 80;
  crit_threshold = quarters 160;
  status = status;
  sample_hz = one_hz;
}

abbrev pub services : Services sample
services = record {
  buckets = buckets;
  hot = bounded (Violation sample);
  warm = bounded (StoredReading sample);
}

abbrev pub reading : ℕ → Fl → Reading sample
reading id v = record { sensor_id = id; ts = pos 1000; value = v }

-- An unknown sensor, a retired one, a value that is not finite, a calm value, a warning and a
-- critical value of one sensor, and a critical low value of another.
abbrev pub batch : ReadingBatch sample
batch = record {
  readings =
      reading 5 (quarters 8)
      ∷ reading 9 (quarters 8)
      ∷ reading 7 inf
      ∷ reading 7 (quarters 8)
      ∷ reading 7 (quarters 100)
      ∷ reading 7 (quarters 200)
      ∷ reading 8 (quarters 60)
      ∷ [];
}

abbrev pub app : AppState sample
app = record { registry = plant; max_batch_size = 10; warm_capacity = 50 }

-- `room` free places in the warm lane
abbrev pub gateway : ℕ → Work services
gateway room = record {
  sum = default;
  limiter = [];
  degrade_seq = 0;
  hot_tx = record { open_end = true; room = 100; received = []; pending = [] };
  warm_tx = record { open_end = true; room = room; received = []; pending = [] };
  metrics = Metrics.new;
}
