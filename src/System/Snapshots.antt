-- ===== src/System/Snapshots.antt =====
-- The gateway with the shared registry snapshot of src/registry.rs: a handler loads the snapshot when
-- it starts, and the invalidation listener swaps in a new one whenever a reload succeeds.
pub mod Isolation
use hazshield_ingest.Prelude.{ℕ, List, [], ◌∷◌}
use hazshield_ingest.Platform.{Platform}
use hazshield_ingest.Types.{Violation, Reading}
use hazshield_ingest.Lane.Receiver.{Receiver}
use hazshield_ingest.Registry.{Registry, Fetch, reload}
use hazshield_ingest.Ingest.Gateway.{Services, AppState}
use hazshield_ingest.Warm.Database.{Postgres}
use hazshield_ingest.Hot.External.{Redis, Disk}
use hazshield_ingest.System.{System, put, step}
use hazshield_ingest.System

-- What happens next: `reloaded` is the end of a reload, with what the database answered.
module _ (p : Platform) where
  pub data Input : Type 0 where
    arrived : ℕ → Input
    read : ℕ → ℕ → Reading p → Input
    answered : ℕ → Input
    refused : Input
    reloaded : Fetch p → Input
    dispatched probed written ticked : Input

module _ {p : Platform} (e : Services p) (g : Postgres) (x : Redis) (k : Disk) where
  -- `state` is `AppState` with the newest snapshot, `loaded` what each handler has loaded.
  pub record Live : Type 0 where
    pub system : System e g x k
    pub state : AppState p
    pub loaded : ℕ → AppState p

module _ {p : Platform} {e : Services p} {g : Postgres} {x : Redis} {k : Disk}
    (hot_rx : Receiver e.hot) (warm_rx : Receiver e.warm) (to_json : Violation p → List ℕ) where
  -- An action of the system.
  abbrev pub acted : Live e g x k → System.Action p → Live e g x k
  acted l a = record l { system = step hot_rx warm_rx to_json l.system a }

  pub act : Live e g x k → Input p → Live e g x k
  act l (arrived i) = record (acted l (System.started i l.state)) {
    loaded = put i l.state l.loaded;
  }
  act l (read i now r) = acted l (System.judged i (l.loaded i) now r)
  act l (answered i) = acted l (System.published i)
  act l refused = acted l System.refused
  act l (reloaded fetch) = record l {
    state = record (l.state) { registry = reload l.state.registry fetch };
  }
  act l dispatched = acted l System.dispatched
  act l probed = acted l System.probed
  act l written = acted l System.written
  act l ticked = acted l System.ticked

  pub live : Live e g x k → List (Input p) → Live e g x k
  live l [] = l
  live l (u ∷ us) = live (act l u) us
