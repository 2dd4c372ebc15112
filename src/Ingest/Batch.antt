-- ===== src/Ingest/Batch.antt =====
-- `ingest_batch` of src/ingest.rs by its equations, for the modules that keep it shut.
use hazshield_ingest.Prelude.{
  ℕ, ◌+◌, ◌≤◌, ◌≡◌, refl, inl, inr, List, [], ◌∷◌, lookup, length, ltb, Bool, Bool-cases, arith,
}
use hazshield_ingest.Platform.{Platform}
use hazshield_ingest.Types.{Reading, ReadingBatch}
use hazshield_ingest.Registry.{Registry}
use hazshield_ingest.Ingest.{judge, ingest_readings, ingest_batch, is_degraded, started, finished}
use hazshield_ingest.Ingest.Gateway.{Services, Work, AppState, ok}

module _ {p : Platform} (e : Services p) where
  pub ingest_readings-nil :
      (reg : Registry p) (degraded : Bool) (clock : ℕ → ℕ) (i : ℕ) (w : Work e)
      → ingest_readings e reg degraded clock i [] w ≡ w
  unfolding ingest_readings
  ingest_readings-nil reg degraded clock i w = refl

  pub ingest_readings-cons :
      (reg : Registry p) (degraded : Bool) (clock : ℕ → ℕ) (i : ℕ) (r : Reading p)
      (rs : List (Reading p)) (w : Work e)
      → ingest_readings e reg degraded clock i (r ∷ rs) w
        ≡ ingest_readings e reg degraded clock
            (i + 1)
            rs
            (judge e degraded (clock i) r w (lookup r.sensor_id reg.sensors))
  unfolding ingest_readings
  ingest_readings-cons reg degraded clock i r rs w = refl

  pub ingest_batch_small :
      (s : AppState p) (clock : ℕ → ℕ) (batch : ReadingBatch p) (w : Work e)
      → length batch.readings ≤ s.max_batch_size
      → let w' =
          ingest_readings e s.registry (is_degraded e s w) clock 0 batch.readings (started e s w) in
        ingest_batch e s clock batch w ≡ (ok w'.sum, finished e w')
  unfolding ingest_batch
  ingest_batch_small s clock batch w h =
      elim (Bool-cases (ltb s.max_batch_size (length batch.readings))) [
        | inl large ↦ absurd (ground arith)
        | inr small ↦ rw small refl
      ]
