-- ===== src/Ingest/Storage.antt =====
-- What the handler of src/ingest.rs does with an accepted reading: it is stored, or it is counted as
-- dropped or as rate limited.
use hazshield_ingest.Prelude.{
  ℕ, ◌+◌, ◌%◌, ◌≤◌, ◌≡◌, refl, Bool, true, false, Option, none, some, List, [], ◌∷◌, ◌++◌, lookup,
  length, to_list, collect_some, if◌then◌else◌, arith, ap, ◌∙◌, ◌&&◌, sym, append-nil, append_assoc,
  length-append, ◌==◌, Bool-cases, inl, inr,
}
use hazshield_ingest.Platform.{Platform}
use hazshield_ingest.Types.{Severity, good, degraded_sampled, Reading, StoredReading}
use hazshield_ingest.Registry.{SensorMeta, Registry}
use hazshield_ingest.Ingest.{
  count_dropped, send_violation, alarm, try_store, store, settle, accept, screen, judge,
  ingest_readings,
}
use hazshield_ingest.Ingest.Gateway.{Services, Work}

module _ {p : Platform} where
  -- The row that a reading becomes.
  abbrev pub row_of : Bool → Reading p → StoredReading p
  row_of degraded r = record {
    ts = r.ts;
    sensor_id = r.sensor_id;
    value = r.value;
    quality = if degraded then degraded_sampled else good;
  }

  abbrev pub row_judged : Bool → Reading p → Option (SensorMeta p) → Option (StoredReading p)
  row_judged degraded r none = none
  row_judged degraded r (some meta) =
      if meta.active && p.is_finite r.value then some (row_of degraded r) else none

  -- The row of a reading that is accepted, by the registry alone.
  abbrev pub row_in : Registry p → Bool → Reading p → Option (StoredReading p)
  row_in reg degraded r = row_judged degraded r (lookup r.sensor_id reg.sensors)

module _ {p : Platform} (e : Services p) where
  abbrev pub rows : Work e → List (StoredReading p)
  rows w = e.warm.accepted w.warm_tx

  -- From `before` to `after`, of the accepted readings with the rows `rs`.
  pub record Stored (rs : List (StoredReading p)) (before after : Work e) : Type 0 where
    pub accounted :
        length (rows after) + after.metrics.warm_degraded_dropped + after.sum.rate_limited
        ≡ length (rows before)
          + before.metrics.warm_degraded_dropped
          + before.sum.rate_limited
          + length rs
    pub dropped_grows : before.metrics.warm_degraded_dropped ≤ after.metrics.warm_degraded_dropped
    pub limited_grows : before.sum.rate_limited ≤ after.sum.rate_limited
    pub complete :
        after.metrics.warm_degraded_dropped ≡ before.metrics.warm_degraded_dropped
        → after.sum.rate_limited ≡ before.sum.rate_limited
        → rows after ≡ rows before ++ rs

  Stored-trans :
      (a b c : Work e) (xs ys : List (StoredReading p))
      → Stored xs a b
      → Stored ys b c
      → Stored (xs ++ ys) a c
  Stored-trans a b c xs ys h k = record {
    accounted = omega (arith, h.accounted, k.accounted, length-append xs ys);
    dropped_grows = omega (arith, h.dropped_grows, k.dropped_grows);
    limited_grows = omega (arith, h.limited_grows, k.limited_grows);
    complete = λ q q'.
        k.complete (omega (arith, h.dropped_grows, k.dropped_grows))
          (omega (arith, h.limited_grows, k.limited_grows))
        ∙ ap (λ t. t ++ ys)
            (h.complete (omega (arith, h.dropped_grows, k.dropped_grows))
              (omega (arith, h.limited_grows, k.limited_grows)))
        ∙ append_assoc (rows a) xs ys;
  }

  Stored-same :
      (a b : Work e)
      → b.warm_tx ≡ a.warm_tx
      → b.metrics.warm_degraded_dropped ≡ a.metrics.warm_degraded_dropped
      → b.sum.rate_limited ≡ a.sum.rate_limited
      → Stored [] a b
  Stored-same a b c d l = record {
    accounted = omega (arith, ap (λ t. length (e.warm.accepted t)) c);
    dropped_grows = omega arith;
    limited_grows = omega arith;
    complete = λ _ _. ap e.warm.accepted c ∙ sym (append-nil (rows a));
  }

  Stored-alarm :
      (meta : SensorMeta p) (r : Reading p) (w : Work e) (o : Option Severity)
      → Stored [] w (alarm e meta r w o)
  unfolding alarm send_violation
  Stored-alarm meta r w o =
      Stored-same w (alarm e meta r w o) (ground arith) (ground arith) (ground arith)

  Stored-taken :
      (w : Work e) (row : StoredReading p) (taken : Bool) (chan : e.warm.Chan)
      → e.warm.accepted chan ≡ (if taken then rows w ++ (row ∷ []) else rows w)
      → Stored (row ∷ []) w (record w {
        warm_tx = chan;
        metrics = if taken then w.metrics else count_dropped e w.metrics;
      })
  Stored-taken w row true chan law = record {
    accounted = omega (arith, ap length law, length-append (rows w) (row ∷ []));
    dropped_grows = omega arith;
    limited_grows = omega arith;
    complete = λ _ _. law;
  }
  Stored-taken w row false chan law = record {
    accounted = omega (arith, ap length law);
    dropped_grows = omega arith;
    limited_grows = omega arith;
    complete = λ q _. absurd (omega arith);
  }

  Stored-try_store : (w : Work e) (row : StoredReading p) → Stored (row ∷ []) w (try_store e w row)
  unfolding try_store
  Stored-try_store w row =
      Stored-taken w row (e.warm.try_send w.warm_tx row).0 _
        (e.warm.accepted-try_send w.warm_tx row)

  Stored-dropped :
      (w : Work e) (row : StoredReading p) (seq : ℕ)
      → Stored (row ∷ []) w (record w { degrade_seq = seq; metrics = count_dropped e w.metrics })
  Stored-dropped w row seq = record {
    accounted = omega arith;
    dropped_grows = omega arith;
    limited_grows = omega arith;
    complete = λ q _. absurd (omega arith);
  }

  Stored-store :
      (degraded : Bool) (r : Reading p) (w : Work e)
      → Stored (row_of degraded r ∷ []) w (store e degraded r w)
  unfolding store
  Stored-store false r w = Stored-try_store w (row_of false r)
  Stored-store true r w = elim (Bool-cases (w.degrade_seq % 10 == 0)) [
    | inl keep ↦ rw keep (
        Stored-trans w _ _ [] (row_of true r ∷ []) (Stored-same w _ refl refl refl)
          (Stored-try_store _ (row_of true r)))
    | inr skip ↦ rw skip (Stored-dropped w (row_of true r) _)
  ]

  Stored-limited :
      (meta : SensorMeta p) (r : Reading p) (w : Work e) (row : StoredReading p)
      → Stored
          (row ∷ [])
          w
          (record w { sum = record (w.sum) { rate_limited = w.sum.rate_limited + 1 } })
  Stored-limited meta r w row = record {
    accounted = omega arith;
    dropped_grows = omega arith;
    limited_grows = omega arith;
    complete = λ _ q. absurd (omega arith);
  }

  Stored-settle :
      (degraded : Bool) (meta : SensorMeta p) (r : Reading p) (within : Bool) (w : Work e)
      → Stored (row_of degraded r ∷ []) w (settle e degraded meta r within w)
  unfolding settle
  Stored-settle degraded meta r true w =
      Stored-trans w _ _ [] _ (Stored-alarm meta r w _) (Stored-store degraded r _)
  Stored-settle degraded meta r false w =
      Stored-trans w _ _ (row_of degraded r ∷ []) [] (Stored-limited meta r w _)
        (Stored-alarm meta r _ _)

  Stored-screen :
      (degraded : Bool) (now : ℕ) (meta : SensorMeta p) (r : Reading p) (active finite : Bool)
      (w : Work e)
      → Stored
          (to_list (if active && finite then some (row_of degraded r) else none))
          w
          (screen e degraded now meta r active finite w)
  unfolding screen accept
  Stored-screen degraded now meta r false finite w = Stored-same w _ refl refl refl
  Stored-screen degraded now meta r true false w = Stored-same w _ refl refl refl
  Stored-screen degraded now meta r true true w =
      Stored-trans w _ _ [] _ (Stored-same w _ refl refl refl) (Stored-settle degraded meta r _ _)

  pub Stored-judge :
      (degraded : Bool) (now : ℕ) (r : Reading p) (w : Work e) (o : Option (SensorMeta p))
      → Stored (to_list (row_judged degraded r o)) w (judge e degraded now r w o)
  unfolding judge
  Stored-judge degraded now r w none = Stored-same w _ refl refl refl
  Stored-judge degraded now r w (some meta) = Stored-screen degraded now meta r _ _ w

  -- Each accepted reading of the loop is taken by the warm lane, counted as dropped or counted as rate
  -- limited; if none is counted so, the lane has taken the rows of all, in order and with the quality
  -- flag of the mode.
  pub ingest_readings-Stored :
      (reg : Registry p) (degraded : Bool) (clock : ℕ → ℕ) (i : ℕ) (rs : List (Reading p))
      (w : Work e)
      → Stored
          (collect_some (row_in reg degraded) rs)
          w
          (ingest_readings e reg degraded clock i rs w)
  unfolding ingest_readings
  ingest_readings-Stored reg degraded clock i [] w = Stored-same w w refl refl refl
  ingest_readings-Stored reg degraded clock i (r ∷ rs) w =
      Stored-trans w _ _ (to_list (row_in reg degraded r)) (collect_some (row_in reg degraded) rs)
        (Stored-judge degraded (clock i) r w (lookup r.sensor_id reg.sensors))
        (ingest_readings-Stored reg degraded clock (i + 1) rs _)
