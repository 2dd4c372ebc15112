-- ===== src/Ingest/Untouched.antt =====
-- What the loop body of src/ingest.rs leaves alone: views of the warm channel and of the metrics.
use hazshield_ingest.Prelude.{
  ℕ, ◌≡◌, refl, ◌∙◌, Bool, true, false, Option, none, some, ◌+◌, ◌==◌, ◌%◌, Bool-cases, inl, inr,
}
use hazshield_ingest.Platform.{Platform}
use hazshield_ingest.Types.{Reading, Severity, StoredReading, Violation}
use hazshield_ingest.Metrics.{Metrics}
use hazshield_ingest.Registry.{SensorMeta}
use hazshield_ingest.Ingest.{
  send_violation, alarm, try_store, store, settle, accept, screen, judge, count_kept, count_dropped,
}
use hazshield_ingest.Ingest.Gateway.{Services, Work}

-- A view of the warm channel that `try_send` does not change.
module _ {p : Platform} (e : Services p) {B : Type 0} (f : e.warm.Chan → B)
    (same : (c : e.warm.Chan) (row : StoredReading p) → f (e.warm.try_send c row).1 ≡ f c) where
  view-alarm :
      (meta : SensorMeta p) (r : Reading p) (w : Work e) (o : Option Severity)
      → f (alarm e meta r w o).warm_tx ≡ f w.warm_tx
  unfolding alarm send_violation
  view-alarm meta r w none = refl
  view-alarm meta r w (some sev) = refl

  view-store :
      (degraded : Bool) (r : Reading p) (w : Work e)
      → f (store e degraded r w).warm_tx ≡ f w.warm_tx
  unfolding store try_store
  view-store false r w = same w.warm_tx _
  view-store true r w = elim (Bool-cases (w.degrade_seq % 10 == 0)) [
    | inl keep ↦ rw keep (same w.warm_tx _)
    | inr skip ↦ rw skip refl
  ]

  view-settle :
      (degraded : Bool) (meta : SensorMeta p) (r : Reading p) (within : Bool) (w : Work e)
      → f (settle e degraded meta r within w).warm_tx ≡ f w.warm_tx
  unfolding settle
  view-settle degraded meta r true w = view-store degraded r _ ∙ view-alarm meta r w _
  view-settle degraded meta r false w = view-alarm meta r _ _

  view-screen :
      (degraded : Bool) (now : ℕ) (meta : SensorMeta p) (r : Reading p) (active finite : Bool)
      (w : Work e)
      → f (screen e degraded now meta r active finite w).warm_tx ≡ f w.warm_tx
  unfolding screen accept
  view-screen degraded now meta r false finite w = refl
  view-screen degraded now meta r true false w = refl
  view-screen degraded now meta r true true w = view-settle degraded meta r _ _

  pub view-judge :
      (degraded : Bool) (now : ℕ) (r : Reading p) (w : Work e) (o : Option (SensorMeta p))
      → f (judge e degraded now r w o).warm_tx ≡ f w.warm_tx
  unfolding judge
  view-judge degraded now r w none = refl
  view-judge degraded now r w (some meta) = view-screen degraded now meta r _ _ w

-- A view of the metrics that does not show the three counters that the loop body writes.
module _ {p : Platform} (e : Services p) {B : Type 0} (f : Metrics → B)
    (lost : (m : Metrics) → f (record m { hot_lost_total = m.hot_lost_total + 1 }) ≡ f m)
    (kept : (m : Metrics) → f (count_kept e m) ≡ f m)
    (dropped : (m : Metrics) → f (count_dropped e m) ≡ f m) where
  metrics-send_violation :
      (w : Work e) (v : Violation p) → f (send_violation e w v).metrics ≡ f w.metrics
  unfolding send_violation
  metrics-send_violation w v = elim (Bool-cases (e.hot.send w.hot_tx v).0) [
    | inl sent ↦ rw sent refl
    | inr failed ↦ rw failed (lost w.metrics)
  ]

  metrics-alarm :
      (meta : SensorMeta p) (r : Reading p) (w : Work e) (o : Option Severity)
      → f (alarm e meta r w o).metrics ≡ f w.metrics
  unfolding alarm
  metrics-alarm meta r w none = refl
  metrics-alarm meta r w (some sev) = metrics-send_violation _ _

  metrics-try_store :
      (w : Work e) (row : StoredReading p) → f (try_store e w row).metrics ≡ f w.metrics
  unfolding try_store
  metrics-try_store w row = elim (Bool-cases (e.warm.try_send w.warm_tx row).0) [
    | inl taken ↦ rw taken refl
    | inr full ↦ rw full (dropped w.metrics)
  ]

  metrics-store :
      (degraded : Bool) (r : Reading p) (w : Work e)
      → f (store e degraded r w).metrics ≡ f w.metrics
  unfolding store
  metrics-store false r w = metrics-try_store w _
  metrics-store true r w = elim (Bool-cases (w.degrade_seq % 10 == 0)) [
    | inl keep ↦ rw keep (metrics-try_store _ _ ∙ kept w.metrics)
    | inr skip ↦ rw skip (dropped w.metrics)
  ]

  metrics-settle :
      (degraded : Bool) (meta : SensorMeta p) (r : Reading p) (within : Bool) (w : Work e)
      → f (settle e degraded meta r within w).metrics ≡ f w.metrics
  unfolding settle
  metrics-settle degraded meta r true w = metrics-store degraded r _ ∙ metrics-alarm meta r w _
  metrics-settle degraded meta r false w = metrics-alarm meta r _ _

  metrics-screen :
      (degraded : Bool) (now : ℕ) (meta : SensorMeta p) (r : Reading p) (active finite : Bool)
      (w : Work e)
      → f (screen e degraded now meta r active finite w).metrics ≡ f w.metrics
  unfolding screen accept
  metrics-screen degraded now meta r false finite w = refl
  metrics-screen degraded now meta r true false w = refl
  metrics-screen degraded now meta r true true w = metrics-settle degraded meta r _ _

  pub metrics-judge :
      (degraded : Bool) (now : ℕ) (r : Reading p) (w : Work e) (o : Option (SensorMeta p))
      → f (judge e degraded now r w o).metrics ≡ f w.metrics
  unfolding judge
  metrics-judge degraded now r w none = refl
  metrics-judge degraded now r w (some meta) = metrics-screen degraded now meta r _ _ w
