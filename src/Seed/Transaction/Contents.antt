-- ===== src/Seed/Transaction/Contents.antt =====
-- What the transaction of src/bin/seed.rs has run when the seeder gets to its commit.
use Prim.Native.String.{String}
use hazshield_ingest.Prelude.{ℕ, ◌≡◌, some, Option, List, [], ◌∷◌, ◌++◌, map, length}
use hazshield_ingest.Prelude.Sublists.{flat}
use hazshield_ingest.Platform.{Platform}
use hazshield_ingest.Types.{Uuid}
use hazshield_ingest.Seed.Batches.{rows, AllSized}
use hazshield_ingest.Seed.Plant.{
  Sensor, Random, Edge, edges, both_directions, sensor, zones, n_sensors, zone_of, asset_zones,
}
use hazshield_ingest.Seed.Transaction.{
  Transaction, delete_from, insert_site, insert_zone, insert_adjacency, insert_sensors,
}
use hazshield_ingest.Seed.Transaction.Loops.{asset_rows}

module _ {p : Platform} (d : Transaction p) where
  -- The sensors of a transaction, over the assets `assets`.
  pub record Sensors (r : Random p) (assets : List (Uuid × Uuid)) (tx tx' : d.Tx) : Type 0 where
    pub batches : List (List (Sensor p))
    pub whole : map some (flat batches) ≡ rows (sensor r assets) n_sensors 0
    pub sized : AllSized batches
    pub inserted : d.statements tx' ≡ d.statements tx ++ map insert_sensors batches

  -- The whole plant, from the transaction `tx` to `tx'`.
  pub record Contents (display : ℕ → String) (r : Random p) (tx tx' : d.Tx) : Type 0 where
    pub site_id : Uuid
    pub zone_ids : List Uuid
    pub links : List Edge
    pub assets : List (Uuid × Uuid)
    pub before : d.Tx
    pub zone_count : length zone_ids ≡ 18
    pub linked : edges zone_ids ≡ some links
    pub placed : map zone_of assets ≡ asset_zones zone_ids
    pub sensors : Sensors r assets before tx'
    pub sent :
        d.statements before
        ≡ d.statements tx
          ++ (map delete_from ("sensor" ∷ "asset" ∷ "zone_adjacency" ∷ "zone" ∷ "site" ∷ [])
              ++ (insert_site "Pilbara Processing Facility"
                  ∷ (map (λ z. insert_zone site_id z.0 z.1) zones
                      ++ (map insert_adjacency (both_directions links)
                          ++ asset_rows display zone_ids))))
