-- ===== src/Hot/Tests.antt =====
-- The dispatcher over a small Redis and disk.
use hazshield_ingest.Prelude.{map, ℕ, ◌≡◌, refl, true, false, some, List, [], ◌∷◌, arith}
use hazshield_ingest.Prelude.Int.{pos}
use hazshield_ingest.Platform.Sample.{quarters, sample}
use hazshield_ingest.Types.{Violation, critical}
use hazshield_ingest.Metrics
use hazshield_ingest.Hot.Spool.{text_of, lines, lines_from, join, AllLines}
use hazshield_ingest.Hot.{
  Dispatcher, Event, received, probed, xadd_and_publish, replay_lines, spill, dispatch, end_replay,
  replay_spill, probe, step, run,
}
use hazshield_ingest.Lane.Sample.{Queue, bounded_rx}
use hazshield_ingest.Hot.Drain.{recv, tick, unconnected, spawn_dispatcher, spawn_dispatcher-Kept}
use hazshield_ingest.Hot.Replay.{Replay, replay_spill-Replay}
use hazshield_ingest.Hot.Kept.{Holds, Kept}
use hazshield_ingest.Hot.Delivery.{payloads_in, run-Kept}
use hazshield_ingest.Hot.Gauge.{Shown, Shown-run}
use hazshield_ingest.Hot.Sample.{letter, letter-IsLine, redis, disk, disk-WritesWhole, solid}

abbrev alarm : ℕ → Violation sample
alarm n = record {
  sensor_id = n;
  zone_id = 3;
  severity = critical;
  value = quarters 400;
  threshold = quarters 300;
  ts = pos 1000000000000000;
}

-- Without a connection; Redis will answer `n` commands.
abbrev waiting : ℕ → List (List ℕ) → Dispatcher redis disk
waiting n ls = record {
  conn = false;
  server = (n, []);
  disk = (true, some (text_of ls));
  metrics = Metrics.new;
}

abbrev history : List (Event sample)
history = received (alarm 0) ∷ probed ∷ received (alarm 1) ∷ []

-- The file has three lines, two are replayed before Redis goes down; the third stays, before the next.
interrupted_run :
    ((run letter (waiting 2 ((120 ∷ []) ∷ (121 ∷ []) ∷ [])) history).server.1
      ≡ (120 ∷ []) ∷ (121 ∷ []) ∷ [])
    × ((run letter (waiting 2 ((120 ∷ []) ∷ (121 ∷ []) ∷ [])) history).disk.1
        ≡ some (text_of ((97 ∷ []) ∷ (98 ∷ []) ∷ [])))
unfolding run step dispatch spill probe replay_spill end_replay replay_lines xadd_and_publish lines
    lines_from join
interrupted_run = (refl, refl)

two_lines : AllLines ((120 ∷ []) ∷ (121 ∷ []) ∷ [])
two_lines = (((omega arith, tt), refl), (((omega arith, tt), refl), tt))

waiting-Holds : Holds ((120 ∷ []) ∷ (121 ∷ []) ∷ []) (waiting 2 ((120 ∷ []) ∷ (121 ∷ []) ∷ []))
waiting-Holds = record { payloads = two_lines; text = refl }

run-Kept_example :
    Kept
      ((120 ∷ []) ∷ (121 ∷ []) ∷ [])
      (payloads_in letter history)
      (waiting 2 ((120 ∷ []) ∷ (121 ∷ []) ∷ []))
      (run letter (waiting 2 ((120 ∷ []) ∷ (121 ∷ []) ∷ [])) history)
run-Kept_example =
    run-Kept disk-WritesWhole letter letter-IsLine history ((120 ∷ []) ∷ (121 ∷ []) ∷ [])
      (waiting 2 ((120 ∷ []) ∷ (121 ∷ []) ∷ [])) waiting-Holds

replay_spill-Replay_example :
    Replay
      ((120 ∷ []) ∷ (121 ∷ []) ∷ [])
      (waiting 1 ((120 ∷ []) ∷ (121 ∷ []) ∷ []))
      (replay_spill (waiting 1 ((120 ∷ []) ∷ (121 ∷ []) ∷ [])))
replay_spill-Replay_example =
    replay_spill-Replay (waiting 1 ((120 ∷ []) ∷ (121 ∷ []) ∷ [])) ((120 ∷ []) ∷ (121 ∷ []) ∷ [])
      two_lines refl

Shown-run_example : Shown (run letter (waiting 1 []) history)
Shown-run_example = Shown-run letter history (waiting 1 []) refl

-- The same on a disk that is never full.
abbrev solid_waiting : Dispatcher redis solid
solid_waiting = record {
  conn = false;
  server = (2, []);
  disk = some (text_of ((120 ∷ []) ∷ (121 ∷ []) ∷ []));
  metrics = Metrics.new;
}

-- A closed channel with two violations in it.
abbrev closed : Queue (Violation sample)
closed = record { open_end = false; room = 8; received = []; pending = alarm 1 ∷ alarm 2 ∷ [] }

spawn_dispatcher-Kept_example :
    (t' : Dispatcher redis disk) × (spawn_dispatcher letter
        (bounded_rx (Violation sample))
        true
        (recv ∷ tick ∷ recv ∷ tick ∷ recv ∷ [])
        closed
        (3, [])
        (true, some (text_of ((120 ∷ []) ∷ (121 ∷ []) ∷ [])))
        Metrics.new
      ≡ some t')
    × Kept
        ((120 ∷ []) ∷ (121 ∷ []) ∷ [])
        (map letter (alarm 1 ∷ alarm 2 ∷ []))
        (unconnected redis disk
          (3, [])
          (true, some (text_of ((120 ∷ []) ∷ (121 ∷ []) ∷ [])))
          Metrics.new)
        t'
spawn_dispatcher-Kept_example =
    spawn_dispatcher-Kept disk-WritesWhole letter letter-IsLine (bounded_rx (Violation sample)) true
      (recv ∷ tick ∷ recv ∷ tick ∷ recv ∷ []) closed ((120 ∷ []) ∷ (121 ∷ []) ∷ []) (3, [])
      (true, some (text_of ((120 ∷ []) ∷ (121 ∷ []) ∷ []))) Metrics.new
      (record { payloads = two_lines; text = refl }) (omega arith)
