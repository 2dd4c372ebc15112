-- ===== src/Startup.antt =====
-- src/main.rs: what `run` starts, in which order, and how it ends. What the outside answers to each
-- stage is an argument: the pool's connection, the first load of the registry, the listening socket,
-- `axum::serve`, and how long the two tasks take to drain once it has returned.
pub mod Stages
mod Tests
use Prim.Native.String.{String}
use hazshield_ingest.Prelude.{
  ℕ, Bool, true, false, Option, none, some, List, [], ◌∷◌, leb, max, ◌&&◌, if◌then◌else◌,
}
use hazshield_ingest.Platform.{Platform}
use hazshield_ingest.Config.{Config}
use hazshield_ingest.Registry.{Registry, Fetch, load}
use hazshield_ingest.Ingest.Gateway.{AppState}

-- The tasks that are spawned, in order.
pub data Task : Type 0 where
  invalidation_listener writer dispatcher server : Task

pub data Exit : Type 0 where
  -- an error of one of the `?`, by its stage
  bad_config no_database no_registry no_address serve_failed : Exit
  -- `mpsc::channel` panics
  panicked : Exit
  -- `Ok(())`, with the drain in time or not
  drained deadline_exceeded : Exit

module _ (p : Platform) where
  -- What has been started when `run` ends, with the state that requests were served with.
  pub record Launch : Type 0 where
    pub tasks : List Task
    pub served : Option (AppState p)
    pub exit : Exit

  -- The answers of the outside.
  pub record Outside : Type 0 where
    pub connect : String → Bool
    pub fetch : Fetch p
    pub bind : String → Bool
    pub serve : Bool
    -- tokio's `Semaphore::MAX_PERMITS`
    pub max_permits : ℕ
    pub writer_ms : ℕ
    pub dispatcher_ms : ℕ

module _ {p : Platform} where
  abbrev pub failed : Exit → List Task → Launch p
  failed exit tasks = record { tasks = tasks; served = none; exit = exit }

  abbrev pub app_state_of : Config → Registry p → AppState p
  app_state_of cfg registry = record {
    registry = registry;
    max_batch_size = cfg.max_batch_size;
    warm_capacity = cfg.warm_channel_capacity;
  }

  -- Both tasks drain at the same time; they are awaited for ten seconds together.
  pub shut_down : Outside p → Exit
  shut_down o = if leb (max o.writer_ms o.dispatcher_ms) 10000 then drained else deadline_exceeded

  pub serve_requests : Outside p → AppState p → Launch p
  serve_requests o state = record {
    tasks = invalidation_listener ∷ writer ∷ dispatcher ∷ server ∷ [];
    served = some state;
    exit = if o.serve then shut_down o else serve_failed;
  }

  pub bind_address : Outside p → Config → Registry p → Launch p
  bind_address o cfg registry =
      if o.bind cfg.bind_addr
      then serve_requests o (app_state_of cfg registry)
      else failed no_address (invalidation_listener ∷ writer ∷ dispatcher ∷ [])

  -- `mpsc::channel` takes a capacity from 1 to `max_permits`, and panics otherwise.
  abbrev pub is_capacity : Outside p → ℕ → Bool
  is_capacity o n = leb 1 n && leb n o.max_permits

  -- From the loaded registry on: the listener, the channels with their tasks, the socket.
  pub start_tasks : Outside p → Config → Registry p → Launch p
  start_tasks o cfg registry =
      if is_capacity o cfg.warm_channel_capacity
      then (if is_capacity o 10000
          then bind_address o cfg registry
          else failed panicked (invalidation_listener ∷ writer ∷ []))
      else failed panicked (invalidation_listener ∷ [])

  abbrev with_registry : Outside p → Config → Option (Registry p) → Launch p
  with_registry o cfg none = failed no_registry []
  with_registry o cfg (some registry) = start_tasks o cfg registry

  abbrev with_config : Outside p → Option Config → Launch p
  with_config o none = failed bad_config []
  with_config o (some cfg) =
      if o.connect cfg.database_url
      then with_registry o cfg (load o.fetch 1)
      else failed no_database []

  pub run : Outside p → Option Config → Launch p
  run o loaded = with_config o loaded
