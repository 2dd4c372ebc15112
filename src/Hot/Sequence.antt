-- ===== src/Hot/Sequence.antt =====
-- Whole runs of the dispatcher of src/hot.rs and the order of what they deliver.
use hazshield_ingest.Platform.{Platform}
use hazshield_ingest.Hot.External.{Redis, Disk, WritesWhole}
use hazshield_ingest.Hot.Order.{Exact, Reliable}
use hazshield_ingest.Hot.{Dispatcher}

module _ {x : Redis} {k : Disk} (exact : Exact x) (whole : WritesWhole k) (sound : Reliable k) where
  -- The state with which a probe goes on to the replay.
  abbrev asked : Dispatcher x k → Dispatcher x k
  asked t = record t { server = (x.connect t.server).1 }
