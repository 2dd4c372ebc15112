-- ===== src/Seed/Transaction.antt =====
-- src/bin/seed.rs: the statements between the beginning of the transaction and its commit. `execute`
-- and `fetch_one` are sqlx's, `none` for an error, with which the seeder ends before its commit.
pub mod Loops
pub mod Contents
pub mod Total
use Prim.Native.String.{String, ◌++◌ as ◌+++◌}
use hazshield_ingest.Prelude.{
  ℕ, ◌+◌, ◌%◌, Option, none, some, ◌>>=◌, List, [], ◌∷◌, ◌++◌, map, get_elem?, zero, suc,
}
use hazshield_ingest.Platform.{Platform}
use hazshield_ingest.Types.{Uuid}
use hazshield_ingest.Seed.{Seeding, seed_sensors}
use hazshield_ingest.Seed.Plant.{
  Sensor, Random, Edge, edges, both_directions, sensor, zones, n_sensors,
}

-- An entry of an asset's JSON array of isolation actions.
pub record IsolationAction : Type 0 where
  pub step : ℕ
  pub action : String
  pub requires : List ℕ

pub data Statement (p : Platform) : Type 0 where
  delete_from : String → Statement p
  insert_site : String → Statement p
  insert_zone : Uuid → String → String → Statement p
  insert_adjacency : Edge → Statement p
  insert_asset : Uuid → String → String → List IsolationAction → Statement p
  insert_sensors : List (Sensor p) → Statement p

-- A transaction of sqlx over Postgres.
pub record Transaction (p : Platform) : Type 1 where
  pub Tx : Type 0
  pub execute : Statement p → Tx → Option Tx
  pub fetch_one : Statement p → Tx → Option (Uuid × Tx)
  -- what a transaction has run so far
  pub statements : Tx → List (Statement p)

abbrev pub isolation_actions : String → List IsolationAction
isolation_actions kind =
    record { step = 1; action = "stop " +++ kind; requires = [] }
    ∷ record { step = 2; action = "lockout-tagout"; requires = 1 ∷ [] }
    ∷ []

abbrev pub asset_kinds : List String
asset_kinds = "ball_mill" ∷ "conveyor_drive" ∷ "vent_fan" ∷ "pump" ∷ "screen" ∷ "feeder" ∷ []

module _ {p : Platform} (d : Transaction p) where
  -- Statements in a row, and the ids that they return.
  pub execute_each : List (Statement p) → d.Tx → Option d.Tx
  execute_each [] tx = some tx
  execute_each (s ∷ ss) tx = d.execute s tx >>= execute_each ss

  pub fetch_each : List (Statement p) → d.Tx → Option (List Uuid × d.Tx)
  fetch_each [] tx = some ([], tx)
  fetch_each (s ∷ ss) tx = do
    one ← d.fetch_one s tx
    rest ← fetch_each ss one.1
    some (one.0 ∷ rest.0, rest.1)

  -- `display` writes a number.
  module _ (display : ℕ → String) where
    -- The i-th asset of a zone; `none` is the panic of an index out of range.
    pub asset_row : Uuid → ℕ → Option (Statement p)
    asset_row zone_id i = do
      kind ← get_elem? asset_kinds (i % 6)
      some (insert_asset zone_id ("asset-" +++ display (i + 1)) kind (isolation_actions kind))

    -- `k` assets of a zone, from the i-th on.
    pub fetch_assets : Uuid → ℕ → ℕ → d.Tx → Option (List Uuid × d.Tx)
    fetch_assets z zero i tx = some ([], tx)
    fetch_assets z (suc k) i tx = do
      row ← asset_row z i
      one ← d.fetch_one row tx
      rest ← fetch_assets z k (i + 1) one.1
      some (one.0 ∷ rest.0, rest.1)

    -- Ten assets for each zone, as pairs of an asset and its zone.
    pub insert_assets : List Uuid → d.Tx → Option (List (Uuid × Uuid) × d.Tx)
    insert_assets [] tx = some ([], tx)
    insert_assets (z ∷ zs) tx = do
      here ← fetch_assets z 10 0 tx
      rest ← insert_assets zs here.1
      some (map (λ id. (id, z)) here.0 ++ rest.0, rest.1)

    -- The sensors over the assets.
    pub insert_sensors_of : Random p → List (Uuid × Uuid) → d.Tx → Option d.Tx
    insert_sensors_of r asset_ids tx = do
      done ←
          seed_sensors (λ t batch. d.execute (insert_sensors batch) t) n_sensors
            (sensor r asset_ids) tx
      some done.tx

    pub seed : Random p → d.Tx → Option d.Tx
    seed r tx = do
      tx ←
          execute_each
            (map delete_from ("sensor" ∷ "asset" ∷ "zone_adjacency" ∷ "zone" ∷ "site" ∷ [])) tx
      site ← d.fetch_one (insert_site "Pilbara Processing Facility") tx
      zone ← fetch_each (map (λ z. insert_zone site.0 z.0 z.1) zones) site.1
      es ← edges zone.0
      tx ← execute_each (map insert_adjacency (both_directions es)) zone.1
      asset ← insert_assets zone.0 tx
      insert_sensors_of r asset.0 asset.1
