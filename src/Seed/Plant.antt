-- ===== src/Seed/Plant.antt =====
-- The plant that src/bin/seed.rs builds: its tables of kinds and zones, the adjacency rows of a list
-- of zones, and the row of the n-th sensor.
pub mod Graph
pub mod Coverage
pub mod Indices
use Prim.Native.String.{String}
use text.Mathlib.Text.{◌==◌}
use hazshield_ingest.Prelude.{
  ℕ, zero, suc, ◌+◌, ◌%◌, Option, none, some, ◌>>=◌, List, [], ◌∷◌, ◌++◌, length, if◌then◌else◌,
  get_elem?, map,
}
use hazshield_ingest.Prelude.Sublists.{flat}
use hazshield_ingest.Seed.Batches.{rows}
use hazshield_ingest.Platform.{Platform}
use hazshield_ingest.Types.{Uuid}

abbrev pub n_sensors : ℕ
n_sensors = 3000

-- An entry of `KINDS`; its decimals are in tenths.
pub record Kind : Type 0 where
  pub name : String
  pub unit : String
  pub warn_from : ℕ
  pub warn_to : ℕ
  pub crit_mult : ℕ

abbrev kind : String → String → ℕ → ℕ → ℕ → Kind
kind name unit warn_from warn_to crit_mult = record {
  name = name;
  unit = unit;
  warn_from = warn_from;
  warn_to = warn_to;
  crit_mult = crit_mult;
}

-- `KINDS`
abbrev pub kinds : List Kind
kinds =
    kind "gas_ch4" "%LEL" 100 200 20
    ∷ kind "gas_co" "ppm" 250 350 18
    ∷ kind "o2" "%vol" 190 195 9
    ∷ kind "temp" "degC" 600 750 14
    ∷ kind "vibration" "mm_s" 45 70 16
    ∷ kind "pressure" "kPa" 5500 7000 13
    ∷ kind "airflow" "m3_s" 200 300 7
    ∷ kind "dust_pm10" "ug_m3" 1200 1800 15
    ∷ kind "seismic" "mm_s" 20 40 25
    ∷ []

abbrev pub zones : List (String × String)
zones =
    ("Crusher Hall A", "crusher_hall")
    ∷ ("Crusher Hall B", "crusher_hall")
    ∷ ("Conveyor Gallery 1", "conveyor_gallery")
    ∷ ("Conveyor Gallery 2", "conveyor_gallery")
    ∷ ("Conveyor Gallery 3", "conveyor_gallery")
    ∷ ("Mill Floor", "processing")
    ∷ ("Flotation Hall", "processing")
    ∷ ("Thickener Deck", "processing")
    ∷ ("Reagent Store", "storage")
    ∷ ("Concentrate Shed", "storage")
    ∷ ("Vent Shaft North", "vent_shaft")
    ∷ ("Vent Shaft South", "vent_shaft")
    ∷ ("Substation 1", "electrical")
    ∷ ("Substation 2", "electrical")
    ∷ ("Control Annex", "control")
    ∷ ("Workshop", "maintenance")
    ∷ ("Tailings Pump House", "pumping")
    ∷ ("Water Treatment", "utilities")
    ∷ []

-- Two zones and the kind of their link.
abbrev pub Edge : Type 0
Edge = Uuid × Uuid × String

-- `zone_ids.windows(2)`, each pair as a passage.
unfoldable pub spine : List Uuid → List Edge
spine [] = []
spine (a ∷ []) = []
spine (a ∷ b ∷ ids) = (a, b, "passage") ∷ spine (b ∷ ids)

abbrev pub cross_links : List (ℕ × ℕ × String)
cross_links =
    (0, 5, "conveyor")
    ∷ (1, 5, "conveyor")
    ∷ (5, 6, "conveyor")
    ∷ (10, 0, "duct")
    ∷ (10, 5, "duct")
    ∷ (11, 6, "duct")
    ∷ (16, 17, "passage")
    ∷ []

-- The edges of links between positions; `none` is the panic of an index out of range.
pub link : List (ℕ × ℕ × String) → List Uuid → Option (List Edge)
link [] zone_ids = some []
link (l ∷ ls) zone_ids = do
  a ← get_elem? zone_ids l.0
  b ← get_elem? zone_ids l.1
  rest ← link ls zone_ids
  some ((a, b, l.2) ∷ rest)

pub edges : List Uuid → Option (List Edge)
edges zone_ids = do links ← link cross_links zone_ids; some (spine zone_ids ++ links)

-- Each edge in both directions: the rows that are sent, of which ON CONFLICT DO NOTHING may skip one
-- that is there already.
unfoldable pub both_directions : List Edge → List Edge
both_directions [] = []
both_directions (e ∷ es) = e ∷ (e.1, e.0, e.2) ∷ both_directions es

-- The zone of an asset; and of the assets of `ids`, which are ten for each.
abbrev pub zone_of : Uuid × Uuid → Uuid
zone_of a = a.1

abbrev pub asset_zones : List Uuid → List Uuid
asset_zones ids = flat (map (λ z. rows (λ _. z) 10 0) ids)

module _ (p : Platform) where
  -- The tuple of a sensor; `sample_hz` is a whole number.
  pub record Sensor : Type 0 where
    pub sensor_id : Uuid
    pub asset_id : Uuid
    pub zone_id : Uuid
    pub kind : String
    pub unit : String
    pub sample_hz : ℕ
    pub warn_threshold : p.F64
    pub crit_threshold : p.F64

-- `StdRng::seed_from_u64`, `gen_range` of a range of floats, `Uuid::now_v7` at its n-th call, and the
-- float of a literal in tenths.
pub record Random (p : Platform) : Type 1 where
  pub Rng : Type 0
  pub seed_from : ℕ → Rng
  pub gen_range : Rng → p.F64 → p.F64 → p.F64 × Rng
  pub now_v7 : ℕ → Uuid
  pub tenths : ℕ → p.F64

-- An index under a remainder, `xs[n % xs.len()]`; `none` is its panic, also of the remainder by zero.
abbrev pub get_mod {ℓ} : {A : Type ℓ} → List A → ℕ → Option A
get_mod xs n = get_elem? xs (n % length xs)

abbrev pub kind_of : ℕ → Option Kind
kind_of n = get_mod kinds n

module _ {p : Platform} (r : Random p) where
  abbrev pub draw : Kind → r.Rng → p.F64 × r.Rng
  draw k rng = r.gen_range rng (r.tenths k.warn_from) (r.tenths k.warn_to)

  -- The generator before the n-th draw.
  pub rng_at : ℕ → Option r.Rng
  rng_at zero = some (r.seed_from 9843)
  rng_at (suc n) = do rng ← rng_at n; k ← kind_of n; some (draw k rng).1

  -- The tuple of the n-th sensor from its asset, its kind and its threshold.
  pub tuple : Uuid × Uuid → Kind → p.F64 → ℕ → Sensor p
  tuple asset k warn n = record {
    sensor_id = r.now_v7 n;
    asset_id = asset.0;
    zone_id = asset.1;
    kind = k.name;
    unit = k.unit;
    sample_hz = if k.name == "vibration" then 10 else 1;
    warn_threshold = warn;
    crit_threshold = p.mul warn (r.tenths k.crit_mult);
  }

  -- The n-th sensor over the assets, each with its zone.
  pub sensor : List (Uuid × Uuid) → ℕ → Option (Sensor p)
  sensor asset_ids n = do
    asset ← get_mod asset_ids n
    k ← kind_of n
    rng ← rng_at n
    some (tuple asset k (draw k rng).0 n)
