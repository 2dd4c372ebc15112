-- ===== src/Ingest/Entries.antt =====
-- The entries of the limiter's map that the loop of src/ingest.rs makes: the limiter is asked for
-- known and active sensors only.
use hazshield_ingest.Prelude.{
  ℕ, ◌+◌, ◌≡◌, refl, ◌∙◌, ap, Bool, true, false, Option, none, some, List, [], ◌∷◌, arith, lookup,
}
use hazshield_ingest.Platform.{Platform}
use hazshield_ingest.Types.{Uuid, Reading, Severity}
use hazshield_ingest.Limiter.Isolation.{get-allow_ne}
use hazshield_ingest.Registry.{Registry, SensorMeta}
use hazshield_ingest.Ingest.{
  send_violation, alarm, try_store, store, settle, accept, screen, judge, ingest_readings,
}
use hazshield_ingest.Ingest.Gateway.{Services, Work}

-- Whether the registry has the sensor, and as active.
abbrev pub admitted : {p : Platform} → Option (SensorMeta p) → Bool
admitted none = false
admitted (some meta) = meta.active

module _ {p : Platform} (e : Services p) where
  limiter-alarm :
      (meta : SensorMeta p) (r : Reading p) (w : Work e) (o : Option Severity)
      → (alarm e meta r w o).limiter ≡ w.limiter
  unfolding alarm send_violation
  limiter-alarm meta r w none = refl
  limiter-alarm meta r w (some sev) = refl

  limiter-store :
      (degraded : Bool) (r : Reading p) (w : Work e) → (store e degraded r w).limiter ≡ w.limiter
  unfolding store try_store
  limiter-store degraded r w = ground arith

  limiter-settle :
      (degraded : Bool) (meta : SensorMeta p) (r : Reading p) (within : Bool) (w : Work e)
      → (settle e degraded meta r within w).limiter ≡ w.limiter
  unfolding settle
  limiter-settle degraded meta r true w = limiter-store degraded r _ ∙ limiter-alarm meta r w _
  limiter-settle degraded meta r false w = limiter-alarm meta r _ _

  get-screen :
      (k : Uuid) (degraded : Bool) (now : ℕ) (meta : SensorMeta p) (r : Reading p)
      (active finite : Bool) (w : Work e)
      → (r.sensor_id ≡ k → active ≡ false)
      → e.buckets.get (screen e degraded now meta r active finite w).limiter k
        ≡ e.buckets.get w.limiter k
  unfolding screen accept
  get-screen k degraded now meta r false finite w h = refl
  get-screen k degraded now meta r true false w h = refl
  get-screen k degraded now meta r true true w h =
      ap (λ m. e.buckets.get m k) (limiter-settle degraded meta r _ _)
      ∙ get-allow_ne p e.buckets w.limiter r.sensor_id k meta.sample_hz now
          (λ same. let never = h same in cc)

  get-judge :
      (k : Uuid) (degraded : Bool) (now : ℕ) (r : Reading p) (w : Work e)
      (o : Option (SensorMeta p))
      → (r.sensor_id ≡ k → admitted o ≡ false)
      → e.buckets.get (judge e degraded now r w o).limiter k ≡ e.buckets.get w.limiter k
  unfolding judge
  get-judge k degraded now r w none h = refl
  get-judge k degraded now r w (some meta) h = get-screen k degraded now meta r meta.active _ w h

  -- For every sensor that the one registry snapshot does not have as active, the limiter's map has the
  -- same entry after any readings as before, so that readings of unknown or inactive sensors make
  -- no entry, whatever their number.
  pub get-ingest_readings :
      (reg : Registry p) (k : Uuid)
      → admitted (lookup k reg.sensors) ≡ false
      → (degraded : Bool) (clock : ℕ → ℕ) (i : ℕ) (rs : List (Reading p)) (w : Work e)
      → e.buckets.get (ingest_readings e reg degraded clock i rs w).limiter k
        ≡ e.buckets.get w.limiter k
  unfolding ingest_readings
  get-ingest_readings reg k h degraded clock i [] w = refl
  get-ingest_readings reg k h degraded clock i (r ∷ rs) w =
      get-ingest_readings reg k h degraded clock (i + 1) rs _
      ∙ get-judge k degraded (clock i) r w (lookup r.sensor_id reg.sensors)
          (λ same. ap (λ j. admitted (lookup j reg.sensors)) same ∙ h)
