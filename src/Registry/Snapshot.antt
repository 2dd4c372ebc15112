-- ===== src/Registry/Snapshot.antt =====
-- What a lookup in a loaded snapshot of src/registry.rs finds, in terms of the table's rows.
use text.Mathlib.TextEquality.{eq_iff}
use hazshield_ingest.Prelude.{
  ℕ, ◌≡◌, refl, Option, none, some, List, [], ◌∷◌, lookup, insert, lookup-insert, arith, ◌==◌,
  if◌then◌else◌, ◌∙◌, is_empty, ◌&&◌, true, false, ◌↔◌, ◌⊎◌, inl, inr,
}
use hazshield_ingest.Platform.{Platform}
use hazshield_ingest.Types.{Uuid}
use hazshield_ingest.Registry.{Fetch, Row, Registry, SensorMeta, meta_of, collect, load}

module _ {p : Platform} where
  abbrev or_else : Option (Row p) → Option (Row p) → Option (Row p)
  or_else (some r) other = some r
  or_else none other = other

  -- The last row of the table for a sensor.
  abbrev pub find_last : Uuid → List (Row p) → Option (Row p)
  find_last k [] = none
  find_last k (r ∷ rows) = or_else (find_last k rows) (if r.sensor_id == k then some r else none)

  abbrev found : Option (Row p) → Option (SensorMeta p) → Option (SensorMeta p)
  found (some r) before = some (meta_of r)
  found none before = before

  lookup-collect :
      (k : Uuid) (rows : List (Row p)) (m : List (Uuid × SensorMeta p))
      → lookup k (collect rows m) ≡ found (find_last k rows) (lookup k m)
  unfolding collect
  lookup-collect k [] m = refl
  lookup-collect k (r ∷ rows) m =
      lookup-collect k rows (insert r.sensor_id (meta_of r) m)
      ∙ ground (arith, lookup-insert m r.sensor_id k (meta_of r))

  -- What a row of the table says of its sensor.
  pub record Describes (r : Row p) (meta : SensorMeta p) : Type 0 where
    pub zone : meta.zone_id ≡ r.zone_id
    pub warning : meta.warn_threshold ≡ r.warn_threshold
    pub critical : meta.crit_threshold ≡ r.crit_threshold
    pub hz : meta.sample_hz ≡ r.sample_hz
    pub is_active : (meta.active ≡ true) ↔ (r.status ≡ "active")

  meta_of-Describes : (r : Row p) → Describes r (meta_of r)
  unfolding meta_of
  meta_of-Describes r = record {
    zone = refl;
    warning = refl;
    critical = refl;
    hz = refl;
    is_active = eq_iff r.status "active";
  }

  -- The entry of a sensor whose last row is `last`.
  abbrev pub Entry : Option (Row p) → Option (SensorMeta p) → Type 0
  Entry none entry = entry ≡ none
  Entry (some r) entry = (meta : SensorMeta p) × (entry ≡ some meta) × Describes r meta

  found-Entry : (last : Option (Row p)) → Entry last (found last none)
  found-Entry none = refl
  found-Entry (some r) = (meta_of r, refl, meta_of-Describes r)

  -- A successful load yields a snapshot of the given generation in which each sensor has the zone, the
  -- thresholds and the rate of its last row, and is active exactly if the status of that row is
  -- "active"; and a sensor with no row is absent.
  pub lookup-load :
      (rows : List (Row p)) (generation : ℕ)
      → (reg : Registry p) × (load (some rows) generation ≡ some reg)
        × (reg.generation ≡ generation)
        × ((k : Uuid) → Entry (find_last k rows) (lookup k reg.sensors))
  unfolding load
  lookup-load rows generation = (
    record { sensors = collect rows []; generation = generation },
    refl,
    refl,
    λ k. rw (lookup-collect k rows []) (found-Entry (find_last k rows)),
  )

module _ {p : Platform} where
  is_empty-insert :
      (k : Uuid) (v : SensorMeta p) (m : List (Uuid × SensorMeta p))
      → is_empty (insert k v m) ≡ false
  is_empty-insert k v [] = refl
  is_empty-insert k v (entry ∷ rest) = ground arith

  pub is_empty-collect :
      (rows : List (Row p)) (m : List (Uuid × SensorMeta p))
      → is_empty (collect rows m) ≡ (is_empty rows && is_empty m)
  unfolding collect
  is_empty-collect [] m = refl
  is_empty-collect (r ∷ rows) m =
      is_empty-collect rows (insert r.sensor_id (meta_of r) m)
      ∙ rw (is_empty-insert r.sensor_id (meta_of r) m) (ground arith)

  pub load-cases :
      (fetch : Fetch p) (n : ℕ)
      → ((fetch ≡ none) × (load fetch n ≡ none))
        ⊎ ((rows : List (Row p)) × (fetch ≡ some rows)
            × (load fetch n ≡ some (record { sensors = collect rows []; generation = n })))
  unfolding load
  load-cases none n = inl (refl, refl)
  load-cases (some rows) n = inr (rows, refl, refl)
