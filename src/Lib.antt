-- ===== src/Lib.antt =====
-- A verification library for hazshield-ingest, a gateway that takes batches of sensor readings,
-- judges them against thresholds, and hands them to two lanes: violations to a Redis stream (the
-- hot lane), readings to PostgreSQL (the warm lane).
--
-- Parts, and the files that model them:
--
-- * Types, Metrics: the data of src/types.rs and the counters of src/metrics.rs. A counter is the sum of
--   the increments that the code asks for, a histogram the number of its observations.
--   Metrics/Registration is `Metrics::new` over the prometheus crate, with Documented for the
--   crate's rules and Complete about it.
-- * Limiter (src/limiter.rs): `allow`, a token bucket for each sensor. Limiter/Tokens, Flood and
--   Isolation are about one bucket, a burst, and several sensors.
-- * Registry (src/registry.rs): `load`, `reload`, `listen` and the listener's loop `run_listener`.
-- * Ingest (src/ingest.rs, src/error.rs, src/state.rs): `ingest_batch`. Its loop body is cut into `judge`
--   (lookup), `screen` (active, finite), `accept` (limiter), `settle`, `alarm` (evaluation, hot
--   lane) and `store` (warm lane), which call one another in the order of the source. `Work` holds
--   the summary and the mutable fields of AppState, `AppState` those that are only read.
-- * Warm (src/warm.rs): `spawn_writer` as a run over the choices of its `select!`, `flush`, `copy_rows`,
--   and Warm/Encode for `encode_binary`. Warm/Decode reads PostgreSQL's format independently.
-- * Hot (src/hot.rs): `xadd_and_publish`, `dispatch`, `spill`, `replay_spill`, and the loop of
--   `spawn_dispatcher` as a run over the choices of its `select!`. Hot/Spool is the text of the spill
--   file, Hot/Replay and Kept hold the relations that Hot/Leftovers and Delivery use; Hot/Order, InOrder
--   and Sequence are about the order of what is delivered, Hot/Counts and Gauge about the metrics,
--   Hot/SpillOnly about `run_spill_only`, Hot/Drain about the task's end on a closed channel.
-- * System (src/main.rs, src/state.rs): the handlers, the dispatcher and the writer interleaved, over
--   the shared fields, channels and metrics. An action is one reading of a handler's loop, its start
--   or its end, or one round of a task's loop. System/Safe and Carried are the relations for
--   violations and rows, Alarms and Rows the runs, Totals the count of violations, Published the metrics
--   that handlers write, Samples the sampling counter that they share; Handlers and Summaries are
--   about one handler.
--   System/Shutdown is the drain at the end, with Left for the rounds that it takes, Buffer, Drained
--   and Settled; System/Snapshots adds the reloads of the registry, with Isolation about a batch.
-- * Config (src/config.rs), Startup (src/main.rs), Routes (src/routes.rs): the configuration, the
--   stages of the start and the deadline at the end, the readiness endpoint, and in Routes/Router the
--   paths and methods, with Table about them. Config/Agreement is about what is loaded.
-- * Seed (src/bin/seed.rs): the loop that inserts the sensors in batches, with Seed/Batches about it;
--   Seed/Plant has the tables of kinds and zones, the graph and the row of a sensor, with Graph,
--   Coverage and Indices about them; Seed/Transaction has the statements up to the commit, with
--   Loops, Contents and Total about them. An index out of range is `none`, as a panic ends the seeder.
-- * Prelude, Fixtures: shared helpers, and the data of the runs in the Tests modules.
--
-- How they interact: a handler reads one registry snapshot, asks the limiter once for each accepted
-- reading, sends violations into the hot channel and readings into the warm channel; the writer
-- receives from the warm channel, the dispatcher from the hot one. In Ingest, Warm and Hot each part
-- stands alone, and what the others do is part of the channels' states or of the history; System puts
-- them together. There an action is not interrupted by another; between its actions a task is.
--
-- Parameters, since their code is not in this repository: f32, f64 and chrono's DateTime (Platform,
-- with the IEEE facts used in `Ieee`), tokio's channels as senders see them (Lane) and as the
-- receiver does (Lane/Receiver), DashMap (Limiter/Buckets), PostgreSQL's COPY (Warm/Database), Redis
-- and the file system (Hot/External), serde_json's text of a violation, the environment and serde's
-- reading of numbers (Config), the answers at the start and tokio's largest capacity of a channel
-- (Startup), sqlx's transaction, the random
-- generator and the new ids of the seeder, the prometheus crate (Metrics/Registration), and axum's
-- router (Routes/Router). Each parameter has a concrete instance on which the theorems run.
--
-- Bounds: numbers are unbounded naturals, except where the source can wrap: the sampling counter
-- (2 ^ 64), the registry's generation (2 ^ 64), the backoff's product and the COPY timestamp. The
-- reader of Warm/Decode takes one unit of fuel for a row, and the input's length is enough fuel
-- because a row is longer than one byte. The drain of a closed channel takes one unit for a round, and
-- one more than the rows left is enough; the dispatcher's drain is over the rounds that it takes.
-- Every other recursion is structural.
--
-- Not modelled: logging, HTTP and JSON, the bodies of /healthz, /uptime, /version and /metrics, which
-- format values that the handlers are given, the trimming of the Redis stream (`stream` holds what
-- was ever added), signals, the build script, the connection and the commit of the
-- seeder, what ON CONFLICT DO NOTHING leaves out of its rows, and the simulator.
pub mod Prelude
pub mod Platform
pub mod Types
pub mod Metrics
pub mod Limiter
pub mod Lane
pub mod Registry
pub mod Ingest
pub mod Warm
pub mod Hot
pub mod Config
pub mod Startup
pub mod Routes
pub mod System
pub mod Seed
pub mod Fixtures
