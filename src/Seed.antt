-- ===== src/Seed.antt =====
-- src/bin/seed.rs: the loop that inserts the sensors in batches, inside the seeder's transaction.
-- `row n` is the n-th sensor that the loop makes, `none` when it panics on an index; `execute` is the multi-row INSERT, `none` for an
-- error, with which the seeder ends before its commit.
pub mod Batches
pub mod Plant
pub mod Transaction
mod Tests
use hazshield_ingest.Prelude.{
  ℕ, zero, suc, ◌+◌, ◌-◌, ◌≡◌, Bool, true, false, Option, none, some, List, [], ◌∷◌, ◌++◌, length,
  min, ◌==◌, ◌||◌, if◌then◌else◌,
}

-- The loop's variables.
pub record Seeding (Row Tx : Type 0) : Type 0 where
  pub batch : List Row
  pub inserted : ℕ
  pub tx : Tx

module _ {Row Tx : Type 0} (execute : Tx → List Row → Option Tx) (n_sensors : ℕ)
    (row : ℕ → Option Row) where
  pub insert_batch : Seeding Row Tx → Option (Seeding Row Tx)
  insert_batch s = elim (execute s.tx s.batch) [
    | none ↦ none
    | some tx ↦
        some
          (record { batch = []; inserted = s.inserted + min 500 (n_sensors - s.inserted); tx = tx })
  ]

  -- The body of the loop for the n-th sensor.
  pub push_sensor : ℕ → Seeding Row Tx → Option (Seeding Row Tx)
  push_sensor n s = elim (row n) [
    | none ↦ none
    | some sensor ↦
        let s' = record s { batch = s.batch ++ (sensor ∷ []) } in
        if (length s'.batch == 500) || (n == n_sensors - 1) then insert_batch s' else some s'
  ]

  -- `k` sensors, from the n-th on.
  pub push_sensors : ℕ → ℕ → Seeding Row Tx → Option (Seeding Row Tx)
  push_sensors zero n s = some s
  push_sensors (suc k) n s = elim (push_sensor n s) [
    | none ↦ none
    | some s' ↦ push_sensors k (n + 1) s'
  ]

  pub seed_sensors : Tx → Option (Seeding Row Tx)
  seed_sensors tx = push_sensors n_sensors 0 (record { batch = []; inserted = 0; tx = tx })
