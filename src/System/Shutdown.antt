-- ===== src/System/Shutdown.antt =====
-- The end of src/main.rs: the server has returned, no handler is left, and both channels are closed.
-- The writer and the dispatcher take out what is left, in any order of their rounds, and end.
pub mod Left
pub mod Buffer
pub mod Drained
pub mod Settled
use hazshield_ingest.Prelude.{ℕ, Bool, true, false, none, some, List, [], ◌∷◌, if◌then◌else◌}
use hazshield_ingest.Platform.{Platform}
use hazshield_ingest.Types.{Violation}
use hazshield_ingest.Lane.Receiver.{Receiver}
use hazshield_ingest.Ingest.Gateway.{Services}
use hazshield_ingest.Warm.Database.{Postgres}
use hazshield_ingest.Hot.External.{Redis, Disk}
use hazshield_ingest.System.{System, dispatched, probed, written, drained, step}

-- Whose round is next. The writer's `select!` is biased to the channel, which is always ready when it
-- is closed, so its timer has no turn.
pub data Turn : Type 0 where
  dispatcher_recv dispatcher_probe writer_recv : Turn

module _ {p : Platform} (e : Services p) (g : Postgres) (x : Redis) (k : Disk) where
  pub record Ending : Type 0 where
    pub system : System e g x k
    pub dispatcher_done : Bool
    pub writer_done : Bool

module _ {p : Platform} {e : Services p} {g : Postgres} {x : Redis} {k : Disk} where
  abbrev pub running : System e g x k → Bool → Bool → Ending e g x k
  running s d w = record { system = s; dispatcher_done = d; writer_done = w }

  -- When the server returns, neither task has ended.
  abbrev pub begun : System e g x k → Ending e g x k
  begun s = running s false false

module _ {p : Platform} {e : Services p} {g : Postgres} {x : Redis} {k : Disk}
    (hot_rx : Receiver e.hot) (warm_rx : Receiver e.warm) (to_json : Violation p → List ℕ) where
  -- `None` from its channel ends the dispatcher's loop.
  pub dispatcher_turn : Ending e g x k → Ending e g x k
  dispatcher_turn n = elim (hot_rx.recv n.system.work.hot_tx) [
    | none ↦ record n { dispatcher_done = true }
    | some _ ↦ record n { system = step hot_rx warm_rx to_json n.system dispatched }
  ]

  -- `None` from its channel makes the writer flush and end.
  pub writer_turn : Ending e g x k → Ending e g x k
  writer_turn n = elim (warm_rx.recv n.system.work.warm_tx) [
    | none ↦ record n { system = step hot_rx warm_rx to_json n.system drained; writer_done = true }
    | some _ ↦ record n { system = step hot_rx warm_rx to_json n.system written }
  ]

  -- A task that has ended has no more rounds.
  pub turn : Ending e g x k → Turn → Ending e g x k
  turn n dispatcher_recv = if n.dispatcher_done then n else dispatcher_turn n
  turn n dispatcher_probe =
      if n.dispatcher_done
      then n
      else record n { system = step hot_rx warm_rx to_json n.system probed }
  turn n writer_recv = if n.writer_done then n else writer_turn n

  pub drain : Ending e g x k → List Turn → Ending e g x k
  drain n [] = n
  drain n (t ∷ ts) = drain (turn n t) ts
