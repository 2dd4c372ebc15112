-- ===== src/Registry.antt =====
-- src/registry.rs: the snapshot of the sensor table, and its reloads.
pub mod Snapshot
pub mod Reload
mod Tests
use Prim.Native.String.{String}
use text.Mathlib.Text.{◌==◌ as str_eq}
use hazshield_ingest.Prelude.{ℕ, ◌+◌, ◌%◌, ◌^◌, Bool, Option, none, some, List, [], ◌∷◌, insert}
use hazshield_ingest.Platform.{Platform}
use hazshield_ingest.Types.{Uuid}

module _ (p : Platform) where
  pub record SensorMeta : Type 0 where
    pub zone_id : Uuid
    pub warn_threshold : p.F64
    pub crit_threshold : p.F64
    pub active : Bool
    pub sample_hz : p.F32

  pub record Registry : Type 0 where
    pub sensors : List (Uuid × SensorMeta)
    pub generation : ℕ

  -- A row of the query: `(sensor_id, zone_id, warn_threshold, crit_threshold, status, sample_hz)`.
  pub record Row : Type 0 where
    pub sensor_id : Uuid
    pub zone_id : Uuid
    pub warn_threshold : p.F64
    pub crit_threshold : p.F64
    pub status : String
    pub sample_hz : p.F32

  -- What `fetch_all` returns; `none` is a database error.
  abbrev pub Fetch : Type 0
  Fetch = Option (List Row)

  -- What `listen` meets: no subscription, or one message after another until the stream ends. A
  -- message comes with what the database answers to the reload that it triggers.
  pub data Session : Type 0 where
    not_subscribed : Session
    messages : List Fetch → Session

module _ {p : Platform} where
  pub meta_of : Row p → SensorMeta p
  meta_of r = record {
    zone_id = r.zone_id;
    warn_threshold = r.warn_threshold;
    crit_threshold = r.crit_threshold;
    active = str_eq r.status "active";
    sample_hz = r.sample_hz;
  }

  -- `collect` into a HashMap: the rows are inserted in order.
  pub collect : List (Row p) → List (Uuid × SensorMeta p) → List (Uuid × SensorMeta p)
  collect [] m = m
  collect (r ∷ rows) m = collect rows (insert r.sensor_id (meta_of r) m)

  -- `Registry::load`
  pub load : Fetch p → ℕ → Option (Registry p)
  load none generation = none
  load (some rows) generation = some (record { sensors = collect rows []; generation = generation })

  abbrev stored : Registry p → Option (Registry p) → Registry p
  stored old none = old
  stored old (some fresh) = fresh

  -- The new snapshot is swapped in, or the old one kept.
  pub reload : Registry p → Fetch p → Registry p
  reload reg fetch = stored reg (load fetch ((reg.generation + 1) % 2 ^ 64))

  pub reload_each : Registry p → List (Fetch p) → Registry p
  reload_each reg [] = reg
  reload_each reg (fetch ∷ rest) = reload_each (reload reg fetch) rest

  pub listen : Registry p → Session p → Registry p
  unfolding reload_each
  listen reg not_subscribed = reg
  listen reg (messages fetches) = reload_each reg fetches

  -- The loop of `spawn_invalidation_listener`: a session, then one reload that no message asked for.
  pub run_listener : Registry p → List (Session p × Fetch p) → Registry p
  run_listener reg [] = reg
  run_listener reg ((session, fetch) ∷ rest) = run_listener (reload (listen reg session) fetch) rest
