-- ===== src/Routes.antt =====
-- src/routes.rs: the readiness endpoint, and in Router the routes. The other handlers format values that
-- they are given.
pub mod Readiness
pub mod Router
mod Tests
use hazshield_ingest.Prelude.{
  ℕ, Bool, true, false, ◌&&◌, not, List, length, is_empty, if◌then◌else◌,
}
use hazshield_ingest.Platform.{Platform}
use hazshield_ingest.Registry.{Registry}

-- The fields of the answer's JSON object.
pub record Readyz : Type 0 where
  pub ready : Bool
  pub db : Bool
  pub registry_sensors : ℕ
  pub registry_generation : ℕ

module _ {p : Platform} where
  -- `db_ok` is whether `SELECT 1` succeeds.
  pub readyz : Registry p → Bool → ℕ × Readyz
  readyz reg db_ok =
      let ready = db_ok && not (is_empty reg.sensors) in
      (
        if ready then 200 else 503,
        record {
          ready = ready;
          db = db_ok;
          registry_sensors = length reg.sensors;
          registry_generation = reg.generation;
        },
      )
