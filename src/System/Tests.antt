-- ===== src/System/Tests.antt =====
-- The whole gateway on a small history: one batch of readings among the rounds of the tasks.
use hazshield_ingest.Registry.Reload.{newest}
use hazshield_ingest.Ingest.Counts.{Counted}
use hazshield_ingest.Prelude.{
  ◌≤◌, ◌/◌, ◌+◌, some, length, collect_some, true, false, ℕ, ◌≡◌, refl, none, List, [], ◌∷◌, arith,
}
use hazshield_ingest.Platform.Sample.{quarters, sample}
use hazshield_ingest.Prelude.Int.{pos}
use hazshield_ingest.Types.{critical, good, Violation, StoredReading}
use hazshield_ingest.Metrics
use hazshield_ingest.Lane.Receiver.{Receiver}
use hazshield_ingest.Lane.Sample.{bounded_rx}
use hazshield_ingest.Ingest.Gateway.{default}
use hazshield_ingest.Warm.Sample.{server, up}
use hazshield_ingest.Hot.Kept.{Holds}
use hazshield_ingest.Hot.Sample.{letter, letter-IsLine, redis, disk, disk-WritesWhole}
use hazshield_ingest.Fixtures.{services, app, gateway, second, reading, plant, row}
use hazshield_ingest.System
use hazshield_ingest.System.{System, Action, run, step, dispatcher_of}
use hazshield_ingest.System.Safe.{Safe}
use hazshield_ingest.System.Alarms.{alarms_in, Safe-run}
use hazshield_ingest.System.Carried.{Carried}
use hazshield_ingest.System.Rows.{rows_along, limited_along, Carried-run}
use hazshield_ingest.System.Snapshots
use hazshield_ingest.System.Snapshots.{Input, Live, act, live}
use hazshield_ingest.System.Snapshots.Isolation.{
  fetches_in, readings_of, violation_among, live_isolated,
}
use hazshield_ingest.System.Shutdown.{
  Turn, dispatcher_recv, dispatcher_probe, writer_recv, begun, drain,
}
use hazshield_ingest.System.Shutdown.Settled.{Settled, drain-Settled}
use hazshield_ingest.System.Published.{Grown, summaries}
use hazshield_ingest.System.Published.Consistent.{IsConsistent, run-IsConsistent}
use hazshield_ingest.System.Samples.{seq, kept, judgements, kept-run}
use hazshield_ingest.Ingest.Sampling.{tens}
use hazshield_ingest.System.Totals.{total, total-run}
use hazshield_ingest.System.Summaries.{IsUnderway, CountedBy, Counted-run}

abbrev hot_rx : Receiver services.hot
hot_rx = bounded_rx (Violation sample)

abbrev warm_rx : Receiver services.warm
warm_rx = bounded_rx (StoredReading sample)

-- The handlers' state at the start, a writer, and a dispatcher for whom Redis answers three commands.
abbrev start : System services server redis disk
start = record {
  work = gateway 20;
  sums = λ i. default;
  writer = record { buf = []; backoff_ms = 0; metrics = Metrics.new; db = up };
  dispatcher = record {
    conn = false;
    server = (3, []);
    disk = (true, none);
    metrics = Metrics.new;
  };
}

abbrev clock : ℕ → ℕ
clock i = second

start-Holds : Holds {x = redis} {k = disk} [] (dispatcher_of start)
start-Holds = record { payloads = tt; text = refl }

-- Two handlers, each with a reading that is critical; the tasks' rounds come between.
abbrev underway : List (Action sample)
underway =
    System.judged 0 app second (reading 7 (quarters 200))
    ∷ System.dispatched
    ∷ System.started 1 app
    ∷ System.judged 1 app second (reading 8 (quarters 60))
    ∷ System.probed
    ∷ System.written
    ∷ System.ticked
    ∷ System.judged 0 app second (reading 5 (quarters 8))
    ∷ System.published 0
    ∷ []

abbrev history : List (Action sample)
history = System.started 0 app ∷ underway

Safe-run_example :
    Safe hot_rx letter [] (alarms_in history) start (run hot_rx warm_rx letter start history)
Safe-run_example =
    Safe-run hot_rx warm_rx letter disk-WritesWhole letter-IsLine history [] start start-Holds

Carried-run_example :
    Carried warm_rx
      (rows_along hot_rx warm_rx letter start history)
      (limited_along hot_rx warm_rx letter start history)
      start
      (run hot_rx warm_rx letter start history)
Carried-run_example = Carried-run hot_rx warm_rx letter history start

total-run_example :
    total hot_rx warm_rx letter (run hot_rx warm_rx letter start history)
    ≡ total hot_rx warm_rx letter start + length (alarms_in history)
total-run_example = total-run hot_rx warm_rx letter history start

underway-IsUnderway : IsUnderway 0 underway
underway-IsUnderway = ((λ h. absurd (omega arith)), tt)

Counted-run_example :
    CountedBy 0 underway ((step hot_rx warm_rx letter start (System.started 0 app)).sums 0) (
      (run hot_rx warm_rx letter
          (step hot_rx warm_rx letter start (System.started 0 app))
          underway).sums
        0)
Counted-run_example =
    Counted-run hot_rx warm_rx letter 0 underway
      (step hot_rx warm_rx letter start (System.started 0 app)) underway-IsUnderway

-- A gateway whose channels, which are closed, hold two violations and a row.
abbrev alarm : ℕ → Violation sample
alarm n = record {
  sensor_id = n;
  zone_id = 1;
  severity = critical;
  value = quarters 200;
  threshold = quarters 160;
  ts = pos 1000;
}

abbrev closing : System services server redis disk
closing = record start {
  work = record (gateway 20) {
    hot_tx = record {
      open_end = false;
      room = 20;
      received = [];
      pending = alarm 7 ∷ alarm 8 ∷ [];
    };
    warm_tx = record {
      open_end = false;
      room = 20;
      received = [];
      pending = record { ts = pos 1000; sensor_id = 7; value = quarters 200; quality = good } ∷ [];
    };
  };
}

-- The rounds of the drain, with a probe between.
abbrev turns : List Turn
turns =
    writer_recv ∷ dispatcher_recv ∷ dispatcher_recv ∷ dispatcher_probe ∷ writer_recv
    ∷ dispatcher_recv ∷ writer_recv ∷ []

abbrev last_acts : List (Action sample)
last_acts = System.started 1 app ∷ System.refused ∷ []

closing-Holds : Holds {x = redis} {k = disk} [] (dispatcher_of closing)
closing-Holds = record { payloads = tt; text = refl }

drain-Settled_example :
    Settled hot_rx warm_rx letter []
      (alarms_in last_acts)
      (rows_along hot_rx warm_rx letter closing last_acts)
      (limited_along hot_rx warm_rx letter closing last_acts)
      closing
      (drain hot_rx warm_rx letter (begun (run hot_rx warm_rx letter closing last_acts)) turns)
unfolding run step
drain-Settled_example =
    drain-Settled hot_rx warm_rx letter disk-WritesWhole letter-IsLine last_acts turns [] closing
      closing-Holds (omega arith) (omega arith)

-- A reload before handler 0 starts, and one while it is underway, which takes sensor 7 away.
abbrev before_it : List (Input sample)
before_it = Snapshots.reloaded (some (row 7 "active" ∷ row 8 "active" ∷ [])) ∷ []

abbrev during_it : List (Input sample)
during_it =
    Snapshots.arrived 1
    ∷ Snapshots.read 0 second (reading 7 (quarters 200))
    ∷ Snapshots.reloaded (some (row 8 "active" ∷ []))
    ∷ Snapshots.reloaded none
    ∷ Snapshots.read 1 second (reading 8 (quarters 60))
    ∷ Snapshots.dispatched
    ∷ Snapshots.read 0 second (reading 7 (quarters 200))
    ∷ Snapshots.answered 0
    ∷ []

abbrev open_for_work : Live services server redis disk
open_for_work = record { system = start; state = app; loaded = λ i. app }

live_isolated_example :
    let l1 =
      act hot_rx warm_rx letter
        (live hot_rx warm_rx letter open_for_work before_it)
        (Snapshots.arrived 0) in
    Counted
      (length (readings_of 0 during_it))
      (collect_some
        (violation_among (newest plant.sensors (fetches_in before_it)))
        (readings_of 0 during_it))
      (l1.system.sums 0)
      ((live hot_rx warm_rx letter l1 during_it).system.sums 0)
live_isolated_example =
    live_isolated hot_rx warm_rx letter before_it during_it open_for_work 0
      ((λ same. absurd (omega (arith, same))), tt)

start-IsConsistent : IsConsistent start
start-IsConsistent = (omega arith, λ i. omega arith)

run-IsConsistent_example :
    Grown
      (summaries hot_rx warm_rx letter start history)
      start.work.metrics
      (run hot_rx warm_rx letter start history).work.metrics
    × IsConsistent (run hot_rx warm_rx letter start history)
run-IsConsistent_example = run-IsConsistent hot_rx warm_rx letter history start start-IsConsistent

kept-run_example :
    let s' = run hot_rx warm_rx letter start history in
    (kept s' + tens (seq start) ≡ kept start + tens (seq s'))
    × (kept s' ≤ kept start + judgements history / 10 + 1)
kept-run_example = kept-run hot_rx warm_rx letter history start (omega arith)
