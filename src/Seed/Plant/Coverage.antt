-- ===== src/Seed/Plant/Coverage.antt =====
-- The kinds and zones of the sensors that src/bin/seed.rs makes.
use hazshield_ingest.Prelude.{
  ℕ, zero, suc, ◌+◌, ◌*◌, ◌%◌, ◌≤◌, ◌<◌, ◌≡◌, refl, sym, subst, ◌∙◌, some, List, [], ◌∷◌, ◌++◌, map,
  length, get_elem?, ap, arith,
}
use mathlib.Core.Option.{some-injective}
use native.Mathlib.Nat.{mod-eq_of_lt}
use hazshield_ingest.Platform.{Platform}
use hazshield_ingest.Types
use hazshield_ingest.Types.{Uuid, SensorKind, kind_name}
use hazshield_ingest.Seed.Batches.{rows}
use hazshield_ingest.Seed.Plant.{
  Random, sensor, n_sensors, zone_of, asset_zones, kinds, Kind, Sensor,
}
use hazshield_ingest.Seed.Plant.Indices.{sensor-some}

-- Where a kind stands in `KINDS`.
abbrev position : SensorKind → ℕ
position Types.gas_ch4 = 0
position Types.gas_co = 1
position Types.o2 = 2
position Types.temp = 3
position Types.vibration = 4
position Types.pressure = 5
position Types.airflow = 6
position Types.dust_pm10 = 7
position Types.seismic = 8

named :
    (k : SensorKind)
    → (kind : Kind) × (get_elem? kinds (position k) ≡ some kind) × (kind.name ≡ kind_name k)
named Types.gas_ch4 = (_, refl, refl)
named Types.gas_co = (_, refl, refl)
named Types.o2 = (_, refl, refl)
named Types.temp = (_, refl, refl)
named Types.vibration = (_, refl, refl)
named Types.pressure = (_, refl, refl)
named Types.airflow = (_, refl, refl)
named Types.dust_pm10 = (_, refl, refl)
named Types.seismic = (_, refl, refl)

position-lt : (k : SensorKind) → position k < 9
position-lt Types.gas_ch4 = omega arith
position-lt Types.gas_co = omega arith
position-lt Types.o2 = omega arith
position-lt Types.temp = omega arith
position-lt Types.vibration = omega arith
position-lt Types.pressure = omega arith
position-lt Types.airflow = omega arith
position-lt Types.dust_pm10 = omega arith
position-lt Types.seismic = omega arith

kind_at : (j : ℕ) → j < 9 → (k : SensorKind) × (position k ≡ j)
kind_at zero h = (Types.gas_ch4, refl)
kind_at (suc zero) h = (Types.gas_co, refl)
kind_at (suc (suc zero)) h = (Types.o2, refl)
kind_at (suc (suc (suc zero))) h = (Types.temp, refl)
kind_at (suc (suc (suc (suc zero)))) h = (Types.vibration, refl)
kind_at (suc (suc (suc (suc (suc zero))))) h = (Types.pressure, refl)
kind_at (suc (suc (suc (suc (suc (suc zero)))))) h = (Types.airflow, refl)
kind_at (suc (suc (suc (suc (suc (suc (suc zero))))))) h = (Types.dust_pm10, refl)
kind_at (suc (suc (suc (suc (suc (suc (suc (suc zero)))))))) h = (Types.seismic, refl)
kind_at (suc (suc (suc (suc (suc (suc (suc (suc (suc j))))))))) h = absurd (omega (arith, h))

-- The assets of the z-th zone stand from 10 * z on.
same_zone :
    (y : Uuid) (rest : List Uuid) (k n i : ℕ)
    → i < k
    → get_elem? (rows (λ _. y) k n ++ rest) i ≡ some y
same_zone y rest zero n i h = absurd (omega (arith, h))
same_zone y rest (suc k) n zero h = refl
same_zone y rest (suc k) n (suc i) h = same_zone y rest k (n + 1) i (omega (arith, h))

asset_zones-at :
    (ids : List Uuid) (z i : ℕ) (y : Uuid)
    → i < 10
    → get_elem? ids z ≡ some y
    → get_elem? (asset_zones ids) (z * 10 + i) ≡ some y
asset_zones-at [] z i y h e = absurd (ground (arith, e))
asset_zones-at (x ∷ ids) zero i y h e =
    let here : i ≡ 0 * 10 + i = omega arith in
    subst (λ n. get_elem? (asset_zones (x ∷ ids)) n ≡ some y) here
      (same_zone x (asset_zones ids) 10 0 i h ∙ e)
asset_zones-at (x ∷ ids) (suc z) i y h e =
    let next : (suc (suc (suc (suc (suc (suc (suc (suc (suc (suc (z * 10 + i)))))))))))
        ≡ suc z * 10 + i =
      omega arith in
    subst (λ n. get_elem? (asset_zones (x ∷ ids)) n ≡ some y) next (asset_zones-at ids z i y h e)

length-asset_zones : (ids : List Uuid) → length (asset_zones ids) ≡ length ids * 10
length-asset_zones [] = refl
length-asset_zones (x ∷ ids) = omega (arith, length-asset_zones ids)

get_elem?-zone :
    (assets : List (Uuid × Uuid)) (n : ℕ) (y : Uuid)
    → get_elem? (map zone_of assets) n ≡ some y
    → (n < length assets) × ((a : Uuid × Uuid) → get_elem? assets n ≡ some a → a.1 ≡ y)
get_elem?-zone [] n y h = absurd (ground (arith, h))
get_elem?-zone (b ∷ assets) zero y h = (omega arith, λ a e. cc)
get_elem?-zone (b ∷ assets) (suc n) y h =
    let (below, same) = get_elem?-zone assets n y h in (omega (arith, below), same)

get_elem?-lt : (ids : List Uuid) (z : ℕ) (y : Uuid) → get_elem? ids z ≡ some y → z < length ids
get_elem?-lt [] z y h = absurd (ground (arith, h))
get_elem?-lt (x ∷ ids) zero y h = omega arith
get_elem?-lt (x ∷ ids) (suc z) y h = omega (arith, get_elem?-lt ids z y h)

module _ {p : Platform} (r : Random p) where
  -- Each sensor's kind is the name of a `SensorKind`.
  pub sensor-kind :
      (assets : List (Uuid × Uuid)) (n : ℕ)
      → 1 ≤ length assets
      → (k : SensorKind) × (s : Sensor p) × (sensor r assets n ≡ some s) × (s.kind ≡ kind_name k)
  sensor-kind assets n h =
      let (asset, kind, s, _, picked, made, _, its_kind) = sensor-some r assets n h in
      let (k, at) = kind_at (n % 9) (omega arith) in
      let (kind', found, name) = named k in
      let same : kind ≡ kind' =
        some-injective kind kind' (sym picked ∙ ap (get_elem? kinds) (sym at) ∙ found) in
      (k, s, made, its_kind ∙ ap (λ (t : Kind). t.name) same ∙ name)

  -- Over ten assets for each of at most 300 zones, each zone has a sensor of each `SensorKind` among the
  -- 3000.
  pub sensor-covers :
      (ids : List Uuid) (assets : List (Uuid × Uuid))
      → length ids ≤ 300
      → map zone_of assets ≡ asset_zones ids
      → (z : ℕ) (y : Uuid) → get_elem? ids z ≡ some y
      → (k : SensorKind)
      → (n : ℕ) × (s : Sensor p) × (n < n_sensors)
        × (sensor r assets n ≡ some s)
        × (s.zone_id ≡ y)
        × (s.kind ≡ kind_name k)
  sensor-covers ids assets few placed z y at k =
      let i = (position k + 8 * z) % 9 in
      let (kind', found, name) = named k in
      let n = z * 10 + i in
      let (below, zone) = get_elem?-zone assets n y (
        subst (λ t. get_elem? t n ≡ some y) (sym placed)
          (asset_zones-at ids z i y (omega arith) at)) in
      let (asset, kind, s, stands, picked, made, its_zone, its_kind) =
        sensor-some r assets n (omega (arith, below)) in
      let index : n % 9 ≡ position k = omega (arith, position-lt k) in
      let same : kind ≡ kind' =
        some-injective kind kind' (sym picked ∙ ap (get_elem? kinds) index ∙ found) in
      (
        n,
        s,
        omega (arith, few, get_elem?-lt ids z y at),
        made,
        its_zone
            ∙ zone asset (subst (λ m. get_elem? assets m ≡ some asset) (mod-eq_of_lt below) stands),
        its_kind ∙ ap (λ (t : Kind). t.name) same ∙ name,
      )
