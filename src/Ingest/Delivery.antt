-- ===== src/Ingest/Delivery.antt =====
-- What the handler of src/ingest.rs owes to safety: every violation of a batch is offered to the hot
-- lane, in order, whatever the limiter, the watermark and the warm lane do.
use hazshield_ingest.Prelude.{
  ℕ, ◌+◌, ◌≤◌, ◌≡◌, refl, Bool, true, false, ◌&&◌, Option, none, some, List, [], ◌∷◌, ◌++◌, lookup,
  length, to_list, collect_some, length-append, append_assoc, append-nil, if◌then◌else◌, arith, ap,
  ◌∙◌, sym,
}
use hazshield_ingest.Platform.{Platform}
use hazshield_ingest.Types.{Severity, Reading, Violation}
use hazshield_ingest.Registry.{SensorMeta, Registry}
use hazshield_ingest.Ingest.{
  evaluate, violation_of, send_violation, alarm, try_store, store, settle, accept, screen, judge,
  ingest_readings,
}
use hazshield_ingest.Ingest.Gateway.{Services, Work}

module _ {p : Platform} where
  abbrev pub raised : SensorMeta p → Reading p → Option Severity → Option (Violation p)
  raised meta r none = none
  raised meta r (some sev) = some (violation_of meta r sev)

  abbrev pub judged : Reading p → Option (SensorMeta p) → Option (Violation p)
  judged r none = none
  judged r (some meta) =
      if meta.active && p.is_finite r.value
      then raised meta r (evaluate meta (p.widen r.value))
      else none

  -- The violation that a reading is, by the registry alone.
  abbrev pub violation_in : Registry p → Reading p → Option (Violation p)
  violation_in reg r = judged r (lookup r.sensor_id reg.sensors)

module _ {p : Platform} (e : Services p) where
  -- The hot lane's part of the state: the channel, and the count of losses.
  abbrev pub Hot : Type 0
  Hot = e.hot.Chan × ℕ

  abbrev pub hot_part : Work e → Hot
  hot_part w = (w.hot_tx, w.metrics.hot_lost_total)

  abbrev pub notify : Hot → Option (Violation p) → Hot
  notify h none = h
  notify (c, lost) (some v) =
      let (sent, c') = e.hot.send c v in (c', if sent then lost else lost + 1)

  abbrev pub notify_all : Hot → List (Violation p) → Hot
  notify_all h [] = h
  notify_all h (v ∷ vs) = notify_all (notify h (some v)) vs

  hot_part-alarm :
      (meta : SensorMeta p) (r : Reading p) (w : Work e) (o : Option Severity)
      → hot_part (alarm e meta r w o) ≡ notify (hot_part w) (raised meta r o)
  unfolding alarm send_violation
  hot_part-alarm meta r w none = refl
  hot_part-alarm meta r w (some sev) = ground arith

  hot_part-store :
      (degraded : Bool) (r : Reading p) (w : Work e) → hot_part (store e degraded r w) ≡ hot_part w
  unfolding store try_store
  hot_part-store degraded r w = ground arith

  hot_part-settle :
      (degraded : Bool) (meta : SensorMeta p) (r : Reading p) (within : Bool) (w : Work e)
      → hot_part (settle e degraded meta r within w)
        ≡ notify (hot_part w) (raised meta r (evaluate meta (p.widen r.value)))
  unfolding settle
  hot_part-settle degraded meta r true w = hot_part-store degraded r _ ∙ hot_part-alarm meta r w _
  hot_part-settle degraded meta r false w = hot_part-alarm meta r _ _

  hot_part-screen :
      (degraded : Bool) (now : ℕ) (meta : SensorMeta p) (r : Reading p) (active finite : Bool)
      (w : Work e)
      → hot_part (screen e degraded now meta r active finite w)
        ≡ notify
            (hot_part w)
            (if active && finite then raised meta r (evaluate meta (p.widen r.value)) else none)
  unfolding screen accept
  hot_part-screen degraded now meta r false finite w = refl
  hot_part-screen degraded now meta r true false w = refl
  hot_part-screen degraded now meta r true true w = hot_part-settle degraded meta r _ _

  pub hot_part-judge :
      (degraded : Bool) (now : ℕ) (r : Reading p) (w : Work e) (o : Option (SensorMeta p))
      → hot_part (judge e degraded now r w o) ≡ notify (hot_part w) (judged r o)
  unfolding judge
  hot_part-judge degraded now r w none = refl
  hot_part-judge degraded now r w (some meta) = hot_part-screen degraded now meta r _ _ w

  notify_all-append :
      (h : Hot) (o : Option (Violation p)) (vs : List (Violation p))
      → notify_all (notify h o) vs ≡ notify_all h (to_list o ++ vs)
  notify_all-append h none vs = refl
  notify_all-append h (some v) vs = refl

  -- The hot lane after a batch depends on nothing but the lane before, the registry and the readings.
  hot_part-ingest_readings :
      (reg : Registry p) (degraded : Bool) (clock : ℕ → ℕ) (i : ℕ) (rs : List (Reading p))
      (w : Work e)
      → hot_part (ingest_readings e reg degraded clock i rs w)
        ≡ notify_all (hot_part w) (collect_some (violation_in reg) rs)
  unfolding ingest_readings
  hot_part-ingest_readings reg degraded clock i [] w = refl
  hot_part-ingest_readings reg degraded clock i (r ∷ rs) w =
      hot_part-ingest_readings reg degraded clock (i + 1) rs _
      ∙ ap (λ h. notify_all h (collect_some (violation_in reg) rs))
          (hot_part-judge degraded (clock i) r w (lookup r.sensor_id reg.sensors))
      ∙ notify_all-append (hot_part w) (violation_in reg r) (collect_some (violation_in reg) rs)

  -- What became of the violations `vs`: each was taken by the lane or counted as lost; and if none
  -- was counted, the lane took them all, in order.
  pub record Delivered (vs : List (Violation p)) (before after : Hot) : Type 0 where
    pub accounted :
        length (e.hot.accepted after.0) + after.1
        ≡ length (e.hot.accepted before.0) + before.1 + length vs
    pub grows : before.1 ≤ after.1
    pub complete : after.1 ≡ before.1 → e.hot.accepted after.0 ≡ e.hot.accepted before.0 ++ vs

  Delivered-cons :
      (c c' : e.hot.Chan) (lost : ℕ) (v : Violation p) (vs : List (Violation p)) (sent : Bool)
      (after : Hot)
      → e.hot.accepted c' ≡ (if sent then e.hot.accepted c ++ (v ∷ []) else e.hot.accepted c)
      → Delivered vs (c', if sent then lost else lost + 1) after
      → Delivered (v ∷ vs) (c, lost) after
  Delivered-cons c c' lost v vs true after law d = record {
    accounted =
        omega (arith, d.accounted, ap length law, length-append (e.hot.accepted c) (v ∷ []));
    grows = d.grows;
    complete =
        λ q. d.complete q ∙ ap (λ t. t ++ vs) law ∙ append_assoc (e.hot.accepted c) (v ∷ []) vs;
  }
  Delivered-cons c c' lost v vs false after law d = record {
    accounted = omega (arith, d.accounted, ap length law);
    grows = omega (arith, d.grows);
    complete = λ q. absurd (omega (arith, d.grows));
  }

  notify_all-Delivered : (vs : List (Violation p)) (h : Hot) → Delivered vs h (notify_all h vs)
  notify_all-Delivered [] h = record {
    accounted = omega arith;
    grows = omega arith;
    complete = λ _. sym (append-nil _);
  }
  notify_all-Delivered (v ∷ vs) (c, lost) =
      Delivered-cons c _ lost v vs (e.hot.send c v).0 _ (e.hot.accepted-send c v)
        (notify_all-Delivered vs _)

  -- Each reading of the loop that is a violation by the registry alone is taken by the hot lane or
  -- counted as lost, and if no loss is counted the lane has taken exactly those, in order. Nothing
  -- else about the state matters: not the limiter, the watermark or the warm lane.
  pub ingest_readings-Delivered :
      (reg : Registry p) (degraded : Bool) (clock : ℕ → ℕ) (i : ℕ) (rs : List (Reading p))
      (w : Work e)
      → Delivered
          (collect_some (violation_in reg) rs)
          (hot_part w)
          (hot_part (ingest_readings e reg degraded clock i rs w))
  ingest_readings-Delivered reg degraded clock i rs w =
      rw (hot_part-ingest_readings reg degraded clock i rs w) (notify_all-Delivered _ _)
