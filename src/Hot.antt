-- ===== src/Hot.antt =====
-- src/hot.rs: the dispatcher that carries violations to the Redis stream, and to a spill file while
-- Redis is down. The loop is a run over what `select!` chose: a violation received, or the probe.
pub mod Spool
pub mod External
pub mod Replay
pub mod Kept
pub mod Leftovers
pub mod Delivery
pub mod Counts
pub mod Gauge
pub mod Untouched
pub mod Order
pub mod InOrder
pub mod Sequence
pub mod SpillOnly
pub mod Drain
pub mod Sample
mod Tests
use hazshield_ingest.Prelude.{
  ℕ, ◌+◌, ◌-◌, Bool, true, false, Option, none, some, List, [], ◌∷◌, ◌++◌, length, if◌then◌else◌,
}
use hazshield_ingest.Platform.{Platform}
use hazshield_ingest.Types.{Violation}
use hazshield_ingest.Metrics.{Metrics}
use Spool.{lines, join, newline}
use External.{Redis, Disk}

-- `conn.is_some() as i64`
abbrev pub as_gauge : Bool → ℕ
as_gauge true = 1
as_gauge false = 0

module _ (x : Redis) (k : Disk) where
  -- The dispatcher's state: whether it holds a connection, and the world that it acts on.
  pub record Dispatcher : Type 0 where
    pub conn : Bool
    pub server : x.Server
    pub disk : k.State
    pub metrics : Metrics

abbrev count_spilled : Metrics → Metrics
count_spilled m = record m { hot_spilled_total = m.hot_spilled_total + 1 }

abbrev count_lost : Metrics → Metrics
count_lost m = record m { hot_lost_total = m.hot_lost_total + 1 }

abbrev count_replayed : ℕ → Metrics → Metrics
count_replayed n m = record m { hot_replayed_total = m.hot_replayed_total + n }

module _ (x : Redis) where
  -- The durable leg decides; the result of PUBLISH is dropped.
  pub xadd_and_publish : x.Server → List ℕ → Bool × x.Server
  xadd_and_publish s payload =
      let (added, s') = x.xadd s payload in
      if added then (true, (x.publish s' payload).1) else (false, s')

  -- The loop of `replay_spill`: the lines that are left when it ends or is interrupted.
  pub replay_lines : x.Server → List (List ℕ) → List (List ℕ) × x.Server
  replay_lines s [] = ([], s)
  replay_lines s (line ∷ rest) = elim (xadd_and_publish s line).0 [
    | true ↦ replay_lines (xadd_and_publish s line).1 rest
    | false ↦ (line ∷ rest, (xadd_and_publish s line).1)
  ]

module _ {x : Redis} {k : Disk} where
  pub spill : Dispatcher x k → List ℕ → Dispatcher x k
  spill t payload =
      let (opened, d1) = k.open_append t.disk in
      let (written, d2) = k.write_line d1 payload in
      if opened
      then record t {
        disk = d2;
        metrics = if written then count_spilled t.metrics else count_lost t.metrics;
      }
      else record t { disk = d1; metrics = count_lost t.metrics }

  abbrev pub disconnected : Dispatcher x k → x.Server → Dispatcher x k
  disconnected t s' = record t {
    conn = false;
    server = s';
    metrics = record (t.metrics) { hot_redis_up = 0 };
  }

  -- `dispatch` for a payload, by whether there is a connection and what the send returns.
  pub dispatch : Dispatcher x k → List ℕ → Dispatcher x k
  dispatch t payload =
      let (sent, s') = xadd_and_publish x t.server payload in
      if t.conn
      then (if sent
          then record t {
            server = s';
            metrics = record (t.metrics) { hot_sent_total = t.metrics.hot_sent_total + 1 };
          }
          else spill (disconnected t s') payload)
      else spill t payload

  -- After the loop: the file is removed, or rewritten with the remainder.
  pub end_replay : Dispatcher x k → ℕ → List (List ℕ) × x.Server → Bool × Dispatcher x k
  end_replay t n ([], s) = (
    true,
    record t { server = s; disk = (k.remove_file t.disk).1; metrics = count_replayed n t.metrics },
  )
  end_replay t n (line ∷ rest, s) = (
    false,
    record t {
      server = s;
      disk = (k.write t.disk (join (line ∷ rest) ++ (newline ∷ []))).1;
      metrics = count_replayed (n - length (line ∷ rest)) t.metrics;
    },
  )

  abbrev replay_file : Dispatcher x k → List (List ℕ) → Bool × Dispatcher x k
  replay_file t [] = (true, record t { disk = (k.remove_file t.disk).1 })
  replay_file t (line ∷ rest) =
      end_replay t (length (line ∷ rest)) (replay_lines x t.server (line ∷ rest))

  pub replay_spill : Dispatcher x k → Bool × Dispatcher x k
  replay_spill t = elim (k.read_to_string t.disk) [
    | none ↦ (true, t)
    | some content ↦ replay_file t (lines content)
  ]

  -- The probe, which the loop takes only without a connection.
  pub probe : Dispatcher x k → Dispatcher x k
  probe t =
      let (connected, s') = x.connect t.server in
      let (drained, t') = replay_spill (record t { server = s' }) in
      if t.conn
      then t
      else if connected
      then (if drained
          then record t' { conn = true; metrics = record (t'.metrics) { hot_redis_up = 1 } }
          else t')
      else record t { server = s' }

-- What `select!` chose.
pub data Event (p : Platform) : Type 0 where
  received : Violation p → Event p
  probed : Event p

module _ {p : Platform} {x : Redis} {k : Disk} (to_json : Violation p → List ℕ) where
  pub step : Dispatcher x k → Event p → Dispatcher x k
  step t (received v) =
      let t' = dispatch t (to_json v) in
      record t' { metrics = record (t'.metrics) { hot_redis_up = as_gauge t'.conn } }
  step t probed = probe t

  -- The loop of `spawn_dispatcher`, until the channel is closed.
  pub run : Dispatcher x k → List (Event p) → Dispatcher x k
  run t [] = t
  run t (ev ∷ evs) = run (step t ev) evs

  -- `run_spill_only`, for a Redis URL that cannot be parsed.
  pub run_spill_only : Dispatcher x k → List (Violation p) → Dispatcher x k
  run_spill_only t [] = t
  run_spill_only t (v ∷ vs) = run_spill_only (spill t (to_json v)) vs
