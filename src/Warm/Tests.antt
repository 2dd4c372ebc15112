-- ===== src/Warm/Tests.antt =====
-- The writer over a small database that can be down.
use hazshield_ingest.Prelude.{
  ℕ, ◌+◌, ◌*◌, ◌≤◌, ◌≡◌, refl, inl, false, some, List, [], ◌∷◌, ◌++◌, map, length, min, arith,
}
use hazshield_ingest.Prelude.Int.{pos}
use hazshield_ingest.Prelude.Sublists.{flat}
use hazshield_ingest.Platform.Sample.{quarters, sample}
use hazshield_ingest.Types.{StoredReading, good}
use hazshield_ingest.Metrics
use hazshield_ingest.Warm.{
  Event, received, tick, Writer, copy_rows, settle_flush, flush, push, flush_if_full, shed, step,
  run, spawn_writer,
}
use hazshield_ingest.Prelude.Bytes.{be_bytes, read_be}
use hazshield_ingest.Warm.Encode.{encode_binary, encode_rows, encode_row}
use hazshield_ingest.Warm.Decode.{Tuple, decode, strip, read_rows, read_fields, read_field}
use hazshield_ingest.Warm.RoundTrip.{AllWire, tuple_of, decode-encode_binary}
use hazshield_ingest.Warm.Bounds.{IsBounded, run-IsBounded}
use hazshield_ingest.Warm.Flow.{Flow, spawn_writer-Flow}
use hazshield_ingest.Warm.Outage.{busy, busy_outage}
use hazshield_ingest.Lane.Sample.{Queue, bounded_rx}
use hazshield_ingest.Warm.Drain.{drain, drain-spawn_writer}
use hazshield_ingest.Warm.Backoff.{backoff_after, ticks, outage_heals}
use hazshield_ingest.Warm.Sample.{server, flaky, up, down}

abbrev stored : ℕ → StoredReading sample
stored v = record { ts = pos 1000000000000000; sensor_id = 7; value = quarters v; quality = good }

abbrev writer : Writer sample server
writer = record { buf = []; backoff_ms = 0; metrics = Metrics.new; db = up }

abbrev history : List (Event sample)
history = received (stored 1) ∷ tick ∷ received (stored 2) ∷ received (stored 3) ∷ []

-- While the server is down the rows stay and the backoff grows.
failing : Writer sample server
failing = record { buf = stored 1 ∷ []; backoff_ms = 500; metrics = Metrics.new; db = down }

outage_run :
    ((run server failing (tick ∷ tick ∷ received (stored 2) ∷ [])).backoff_ms ≡ 2000)
    × ((run server failing (tick ∷ tick ∷ received (stored 2) ∷ [])).buf ≡ stored 1 ∷ stored 2 ∷ [])
unfolding run step flush settle_flush copy_rows push flush_if_full shed failing
outage_run = (refl, refl)

writer-IsBounded : IsBounded writer
writer-IsBounded = record { capped = omega arith; batch = λ _. omega arith; backoff = inl refl }

run-IsBounded_example : IsBounded (run server writer history)
run-IsBounded_example = run-IsBounded writer history writer-IsBounded

spawn_writer-Flow_example :
    (f : Flow writer (spawn_writer server writer history) (stored 1 ∷ stored 2 ∷ stored 3 ∷ []))
    × ((spawn_writer server writer history).metrics.warm_shed_total ≡ 0
        → flat f.batches ++ (spawn_writer server writer history).buf
          ≡ stored 1 ∷ stored 2 ∷ stored 3 ∷ [])
spawn_writer-Flow_example = spawn_writer-Flow writer history

decode-encode_binary_example :
    (ts : List Tuple) × (decode (encode_binary {p = sample} (stored 1 ∷ stored 2 ∷ [])) ≡ some ts)
    × (length ts ≡ 2)
    × (AllWire {p = sample} (stored 1 ∷ stored 2 ∷ [])
        → ts ≡ map (tuple_of {p = sample}) (stored 1 ∷ stored 2 ∷ []))
    × (length (encode_binary {p = sample} (stored 1 ∷ stored 2 ∷ [])) ≡ 21 + 48 * 2)
    × (1 ≤ 2 → length (encode_binary {p = sample} (stored 1 ∷ stored 2 ∷ [])) ≤ 19 + 2 * 50)
decode-encode_binary_example = decode-encode_binary {p = sample} (stored 1 ∷ stored 2 ∷ [])

busy_outage_example :
    ((run server failing (busy (stored 2 ∷ stored 3 ∷ []))).db ≡ failing.db)
    × ((run server failing (busy (stored 2 ∷ stored 3 ∷ []))).backoff_ms ≡ failing.backoff_ms)
    × ((run server failing (busy (stored 2 ∷ stored 3 ∷ []))).metrics.warm_flushed_total
        ≡ failing.metrics.warm_flushed_total)
    × (length (run server failing (busy (stored 2 ∷ stored 3 ∷ []))).buf
        ≡ min 5000 (length failing.buf + 2))
busy_outage_example =
    busy_outage failing (stored 2 ∷ stored 3 ∷ []) (unfold failing in omega arith)
      (unfold failing in omega arith)

-- The network refuses two connections, and the third tick writes the row.
abbrev refused_twice : Writer sample flaky
refused_twice = record { buf = stored 1 ∷ []; backoff_ms = 0; metrics = Metrics.new; db = (2, up) }

outage_heals_example :
    let down_now = run flaky refused_twice (ticks 2) in
    let up_again = step flaky down_now tick in
    (down_now.buf ≡ refused_twice.buf)
    × (down_now.backoff_ms ≡ backoff_after 2)
    × (down_now.metrics.warm_flush_failures_total
        ≡ refused_twice.metrics.warm_flush_failures_total + 2)
    × (up_again.buf ≡ [])
    × (up_again.backoff_ms ≡ 0)
    × (up_again.metrics.warm_flushed_total ≡ refused_twice.metrics.warm_flushed_total + 1)
unfolding copy_rows decode strip encode_binary read_be be_bytes read_rows encode_rows encode_row
    read_fields read_field
outage_heals_example = outage_heals 2 1 refused_twice (omega arith) refl (refl, (refl, tt)) refl

-- A closed channel with two rows in it.
abbrev closed : Queue (StoredReading sample)
closed = record { open_end = false; room = 8; received = []; pending = stored 1 ∷ stored 2 ∷ [] }

drain-spawn_writer_example :
    drain server (bounded_rx (StoredReading sample)) 3 closed writer
    ≡ some (spawn_writer server writer (received (stored 1) ∷ received (stored 2) ∷ []))
drain-spawn_writer_example =
    drain-spawn_writer server (bounded_rx (StoredReading sample)) 3 closed writer (omega arith)
