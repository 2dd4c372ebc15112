-- ===== src/Warm.antt =====
-- src/warm.rs: the batch writer between the warm channel and PostgreSQL. The loop of `spawn_writer`
-- is a run over what `select!` chose each time: a row received, or a tick of the flush timer.
pub mod Encode
pub mod Decode
pub mod RoundTrip
pub mod Database
pub mod Copy
pub mod Bounds
pub mod Flow
pub mod Outage
pub mod Backoff
pub mod Untouched
pub mod Drain
pub mod Sample
mod Tests
use hazshield_ingest.Prelude.{
  ℕ, ◌+◌, ◌-◌, ◌*◌, ◌%◌, ◌^◌, ◌&&◌, Bool, true, false, Option, none, some, List, [], ◌∷◌, ◌++◌,
  length, is_empty, drop, ltb, leb, ◌==◌, if◌then◌else◌,
}
use hazshield_ingest.Platform.{Platform}
use hazshield_ingest.Types.{StoredReading}
use hazshield_ingest.Metrics.{Metrics}
use Encode.{encode_binary}
use Database.{Postgres}

abbrev pub max_batch_rows : ℕ
max_batch_rows = 1000

abbrev pub max_buffered : ℕ
max_buffered = 5000

-- `x.clamp(lo, hi)`
abbrev pub clamp : ℕ → ℕ → ℕ → ℕ
clamp lo hi x = if ltb x lo then lo else if ltb hi x then hi else x

module _ (p : Platform) where
  -- What `select!` chose: a row from the channel, or the timer.
  pub data Event : Type 0 where
    received : StoredReading p → Event
    tick : Event

module _ (p : Platform) (g : Postgres) where
  -- The local variables of the task, with the metrics and the database.
  pub record Writer : Type 0 where
    pub buf : List (StoredReading p)
    pub backoff_ms : ℕ
    pub metrics : Metrics
    pub db : g.Db

module _ {p : Platform} (g : Postgres) where
  -- One COPY; each `?` returns early.
  pub copy_rows : g.Db → List (StoredReading p) → Option ℕ × g.Db
  copy_rows d rows =
      let (acquired, d1) = g.acquire d in
      let (begun, d2) = g.copy_in_raw d1 in
      let (sent, d3) = g.send d2 (encode_binary rows) in
      if acquired
      then (if begun then (if sent then g.finish d3 else (none, d3)) else (none, d2))
      else (none, d1)

  -- The buffer is cleared on success only; a failure doubles the backoff within its limits.
  pub settle_flush : Writer p g → Option ℕ × g.Db → Writer p g
  settle_flush w (some n, db) = record w {
    buf = [];
    backoff_ms = 0;
    db = db;
    metrics = record (w.metrics) {
      warm_flushed_total = w.metrics.warm_flushed_total + n;
      warm_flush_seconds = w.metrics.warm_flush_seconds + 1;
    };
  }
  settle_flush w (none, db) = record w {
    backoff_ms = clamp 250 5000 (w.backoff_ms * 2 % 2 ^ 64);
    db = db;
    metrics = record (w.metrics) {
      warm_flush_failures_total = w.metrics.warm_flush_failures_total + 1;
      warm_flush_seconds = w.metrics.warm_flush_seconds + 1;
    };
  }

  pub flush : Writer p g → Writer p g
  flush w = if is_empty w.buf then w else settle_flush w (copy_rows w.db w.buf)

  pub push : Writer p g → StoredReading p → Writer p g
  push w r = record w { buf = w.buf ++ (r ∷ []) }

  pub flush_if_full : Writer p g → Writer p g
  flush_if_full w = if leb max_batch_rows (length w.buf) && (w.backoff_ms == 0) then flush w else w

  -- The oldest rows beyond the cap are dropped, and counted.
  pub shed : Writer p g → Writer p g
  shed w =
      if ltb max_buffered (length w.buf)
      then record w {
        buf = drop (length w.buf - max_buffered) w.buf;
        metrics = record (w.metrics) {
          warm_shed_total = w.metrics.warm_shed_total + (length w.buf - max_buffered);
        };
      }
      else w

  abbrev pub gauge : Writer p g → Writer p g
  gauge w = record w { metrics = record (w.metrics) { warm_buffered = length w.buf } }

  -- One round of the loop.
  pub step : Writer p g → Event p → Writer p g
  step w (received r) = gauge (shed (flush_if_full (push w r)))
  step w tick = gauge (flush w)

  pub run : Writer p g → List (Event p) → Writer p g
  run w [] = w
  run w (ev ∷ evs) = run (step w ev) evs

  -- The whole task: the rounds until the channel is closed, then the last flush.
  pub spawn_writer : Writer p g → List (Event p) → Writer p g
  spawn_writer w evs = flush (run w evs)
