-- ===== src/System.antt =====
-- The gateway as src/main.rs wires it: the handlers share the fields of `AppState` (src/state.rs), and
-- the two channels lead to the writer and to the dispatcher. What the tasks do is interleaved: each
-- action is one reading of one handler's loop, or one round of a task's loop.
pub mod Safe
pub mod Alarms
pub mod Carried
pub mod Rows
pub mod Handlers
pub mod Summaries
pub mod Totals
pub mod Samples
pub mod Published
pub mod Shutdown
pub mod Snapshots
mod Tests
use hazshield_ingest.Prelude.{
  ℕ, Bool, Option, none, some, List, [], ◌∷◌, lookup, ◌==◌, ◌+◌, if◌then◌else◌,
}
use hazshield_ingest.Platform.{Platform}
use hazshield_ingest.Types.{Reading, Violation}
use hazshield_ingest.Metrics.{Metrics}
use hazshield_ingest.Lane.Receiver.{Receiver}
use hazshield_ingest.Ingest.{judge, is_degraded, publish}
use hazshield_ingest.Ingest.Gateway.{Services, IngestSummary, default, Work, AppState}
use hazshield_ingest.Warm
use hazshield_ingest.Warm.{Writer}
use hazshield_ingest.Warm.Database.{Postgres}
use hazshield_ingest.Hot
use hazshield_ingest.Hot.{Dispatcher}
use hazshield_ingest.Hot.External.{Redis, Disk}

module _ {p : Platform} (e : Services p) (g : Postgres) (x : Redis) (k : Disk) where
  -- `work` has the fields that the handlers share, and the metrics that all tasks share; `sums` has
  -- each handler's own summary.
  pub record System : Type 0 where
    pub work : Work e
    pub sums : ℕ → IngestSummary
    pub writer : Writer p g
    pub dispatcher : Dispatcher x k

-- What happens next. A handler is known by a number, and reads its registry snapshot in `AppState`.
module _ (p : Platform) where
  pub data Action : Type 0 where
    -- a handler starts, judges a reading at a time, and publishes its summary
    started : ℕ → AppState p → Action
    judged : ℕ → AppState p → ℕ → Reading p → Action
    published : ℕ → Action
    -- a handler refuses a batch that is too large
    refused : Action
    -- the dispatcher receives, or its probe is due
    dispatched : Action
    probed : Action
    -- the writer receives, or its timer ticks
    written : Action
    ticked : Action
    -- the writer finds its channel closed, and flushes for the last time
    drained : Action

abbrev pub put {ℓ} : {A : Type ℓ} → ℕ → A → (ℕ → A) → ℕ → A
put i a f j = if j == i then a else f j

module _ {p : Platform} {e : Services p} {g : Postgres} {x : Redis} {k : Disk} where
  -- The tasks with the shared metrics in their place.
  abbrev pub dispatcher_of : System e g x k → Dispatcher x k
  dispatcher_of s = record (s.dispatcher) { metrics = s.work.metrics }

  abbrev pub writer_of : System e g x k → Writer p g
  writer_of s = record (s.writer) { metrics = s.work.metrics }

  abbrev pub with_dispatcher : System e g x k → e.hot.Chan → Dispatcher x k → System e g x k
  with_dispatcher s c t = record s {
    dispatcher = t;
    work = record (s.work) { hot_tx = c; metrics = t.metrics };
  }

  abbrev pub with_writer : System e g x k → e.warm.Chan → Writer p g → System e g x k
  with_writer s c w = record s {
    writer = w;
    work = record (s.work) { warm_tx = c; metrics = w.metrics };
  }

  -- The handler's own summary is put in the place of the last one's.
  abbrev pub judging : System e g x k → ℕ → AppState p → ℕ → Reading p → Work e
  judging s i a now r =
      judge e (s.sums i).degraded now r (record (s.work) { sum = s.sums i })
        (lookup r.sensor_id a.registry.sensors)

module _ {p : Platform} {e : Services p} {g : Postgres} {x : Redis} {k : Disk}
    (hot_rx : Receiver e.hot) (warm_rx : Receiver e.warm) (to_json : Violation p → List ℕ) where
  pub step : System e g x k → Action p → System e g x k
  step s (started i a) = record s {
    sums = put i (record default { degraded = is_degraded e a s.work }) s.sums;
    work = record (s.work) {
      metrics = record (s.work.metrics) { batch_size = s.work.metrics.batch_size + 1 };
    };
  }
  step s (judged i a now r) = record s {
    work = judging s i a now r;
    sums = put i (judging s i a now r).sum s.sums;
  }
  step s (published i) = record s {
    work = record (s.work) { metrics = publish e (s.sums i) s.work.metrics };
  }
  step s refused = record s {
    work = record (s.work) {
      metrics = record (s.work.metrics) { handler_seconds = s.work.metrics.handler_seconds + 1 };
    };
  }
  step s dispatched = elim (hot_rx.recv s.work.hot_tx) [
    | none ↦ s
    | some (v, c) ↦ with_dispatcher s c (Hot.step to_json (dispatcher_of s) (Hot.received v))
  ]
  step s probed = with_dispatcher s s.work.hot_tx (Hot.step to_json (dispatcher_of s) Hot.probed)
  step s written = elim (warm_rx.recv s.work.warm_tx) [
    | none ↦ s
    | some (r, c) ↦ with_writer s c (Warm.step g (writer_of s) (Warm.received r))
  ]
  step s ticked = with_writer s s.work.warm_tx (Warm.step g (writer_of s) Warm.tick)
  step s drained = with_writer s s.work.warm_tx (Warm.flush g (writer_of s))

  pub run : System e g x k → List (Action p) → System e g x k
  run s [] = s
  run s (a ∷ acts) = run (step s a) acts
