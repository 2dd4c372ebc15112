-- ===== src/Seed/Tests.antt =====
-- A small seed, three sensors over a list of inserted rows; and the whole plant over a connection
-- that keeps the statements and gives the ids 0, 1, 2, ....
use Prim.Native.String.{String}
use hazshield_ingest.Prelude.{
  ℕ, ◌+◌, ◌<◌, ◌≡◌, refl, Option, some, List, [], ◌∷◌, ◌++◌, map, length, arith,
}
use hazshield_ingest.Platform.Sample.{quarters, sample}
use hazshield_ingest.Types
use hazshield_ingest.Types.{Uuid, kind_name}
use hazshield_ingest.Seed.{insert_batch, push_sensor, push_sensors, seed_sensors}
use hazshield_ingest.Seed.Plant.{
  Edge, Random, Sensor, edges, spine, both_directions, sensor, n_sensors, asset_zones,
}
use hazshield_ingest.Seed.Plant.Graph.{IsIn, Joined, edges-Joined}
use hazshield_ingest.Seed.Plant.Coverage.{sensor-covers}
use hazshield_ingest.Seed.Transaction.{Statement, Transaction, seed}
use hazshield_ingest.Seed.Transaction.Contents.{Contents}
use hazshield_ingest.Seed.Transaction.Total.{Answered, Answers, seed-Answered}

abbrev execute : List ℕ → List ℕ → Option (List ℕ)
execute tx batch = some (tx ++ batch)

abbrev row : ℕ → Option ℕ
row n = some (n + 100)

seed_run :
    seed_sensors execute 3 row []
    ≡ some (record { batch = []; inserted = 3; tx = 100 ∷ 101 ∷ 102 ∷ [] })
unfolding seed_sensors push_sensors push_sensor insert_batch
seed_run = refl

abbrev log : Transaction sample
log = record {
  Tx = List (Statement sample);
  execute = λ s tx. some (tx ++ (s ∷ []));
  fetch_one = λ s tx. some (length tx, tx ++ (s ∷ []));
  statements = λ tx. tx;
}

log-Answers : Answers log
log-Answers = record {
  execute_answers = λ s tx. (tx ++ (s ∷ []), refl);
  fetch_answers = λ s tx. ((length tx, tx ++ (s ∷ [])), refl);
}

abbrev draws : Random sample
draws = record {
  Rng = ℕ;
  seed_from = λ n. n;
  gen_range = λ rng a b. (a, rng + 1);
  now_v7 = λ n. n;
  tenths = quarters;
}

abbrev display : ℕ → String
display n = "n"

seed-Answered_example : Answered (seed log display draws [])
seed-Answered_example = seed-Answered log-Answers display draws []

abbrev ids : List Uuid
ids = 0 ∷ 1 ∷ 2 ∷ 3 ∷ 4 ∷ 5 ∷ 6 ∷ 7 ∷ 8 ∷ 9 ∷ 10 ∷ 11 ∷ 12 ∷ 13 ∷ 14 ∷ 15 ∷ 16 ∷ 17 ∷ []

-- Two links of zones, and their rows.
rows_run :
    both_directions (spine (4 ∷ 5 ∷ 6 ∷ []))
    ≡ (4, 5, "passage") ∷ (5, 4, "passage") ∷ (5, 6, "passage") ∷ (6, 5, "passage") ∷ []
unfolding both_directions spine
rows_run = refl

edges-Joined_example :
    (es : List Edge) × (edges ids ≡ some es)
    × ((a b : Uuid) (k : String)
        → IsIn (a, b, k) (both_directions es)
        → IsIn (b, a, k) (both_directions es))
    × ((a b : Uuid) → IsIn a ids → IsIn b ids → Joined (both_directions es) a b)
edges-Joined_example = edges-Joined ids (omega arith)

abbrev assets : List (Uuid × Uuid)
assets = map (λ z. (100, z)) (asset_zones ids)

-- The Mill Floor has a sensor of methane.
sensor-covers_example :
    (n : ℕ) × (s : Sensor sample) × (n < n_sensors)
    × (sensor draws assets n ≡ some s)
    × (s.zone_id ≡ 5)
    × (s.kind ≡ kind_name Types.gas_ch4)
sensor-covers_example = sensor-covers draws ids assets (omega arith) refl 5 5 refl Types.gas_ch4
