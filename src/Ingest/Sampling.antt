-- ===== src/Ingest/Sampling.antt =====
-- Degraded mode of src/ingest.rs: storage drops to one reading in ten. Here
-- a handler's loop runs alone; System/Samples has the handlers that share the counter.
use hazshield_ingest.Prelude.{
  ℕ, suc, ◌+◌, ◌/◌, ◌%◌, ◌^◌, ◌≤◌, ◌<◌, ◌≡◌, refl, Bool, true, false, Option, none, some, List, [],
  ◌∷◌, ◌++◌, lookup, length, length-append, ap, ==_iff, arith, ◌==◌, Bool-cases, inl, inr,
  if◌then◌else◌,
}
use hazshield_ingest.Platform.{Platform}
use hazshield_ingest.Types.{Severity, Reading, StoredReading}
use hazshield_ingest.Registry.{SensorMeta, Registry}
use hazshield_ingest.Ingest.{
  evaluate, send_violation, alarm, try_store, store, settle, accept, screen, judge, ingest_readings,
}
use hazshield_ingest.Ingest.Gateway.{Services, Work}
use hazshield_ingest.Ingest.Storage.{rows}

-- How many of the numbers below `n` are multiples of ten.
abbrev pub tens : ℕ → ℕ
tens n = (n + 9) / 10

module _ {p : Platform} (e : Services p) where
  -- The counts that sampling is about: the sequence number, and the readings kept.
  abbrev pub seq : Work e → ℕ
  seq w = w.degrade_seq

  abbrev pub kept : Work e → ℕ
  kept w = w.metrics.warm_degraded_kept

  -- From `before` to `after`, over at most `n` readings.
  pub record Sampled (degraded : Bool) (n : ℕ) (before after : Work e) : Type 0 where
    pub forward : seq before ≤ seq after
    pub steps : seq after ≤ seq before + n
    pub multiples : kept after + tens (seq before) ≡ kept before + tens (seq after)
    -- in degraded mode the lane takes no row that is not counted as kept
    pub only_kept :
        degraded ≡ true → length (rows e after) + kept before ≤ length (rows e before) + kept after

  Sampled-same :
      (degraded : Bool) (a b : Work e) (n : ℕ)
      → seq b ≡ seq a
      → kept b ≡ kept a
      → (degraded ≡ true → b.warm_tx ≡ a.warm_tx)
      → Sampled degraded n a b
  Sampled-same degraded a b n s k c = record {
    forward = omega arith;
    steps = omega arith;
    multiples = ground arith;
    only_kept = λ d. omega (arith, ap (λ t. length (e.warm.accepted t)) (c d));
  }

  Sampled-trans :
      (degraded : Bool) (a b c : Work e) (m n : ℕ)
      → Sampled degraded m a b
      → Sampled degraded n b c
      → Sampled degraded (m + n) a c
  Sampled-trans degraded a b c m n h k = record {
    forward = omega (arith, h.forward, k.forward);
    steps = omega (arith, h.steps, k.steps);
    multiples = omega (arith, h.multiples, k.multiples);
    only_kept = λ d. omega (arith, h.only_kept d, k.only_kept d);
  }

  -- What `try_store` leaves alone, and that it adds one row at most.
  seq-try_store : (w : Work e) (row : StoredReading p) → seq (try_store e w row) ≡ seq w
  unfolding try_store
  seq-try_store w row = refl

  kept-try_store : (w : Work e) (row : StoredReading p) → kept (try_store e w row) ≡ kept w
  unfolding try_store
  kept-try_store w row = ground arith

  rows_one_more :
      (w : Work e) (row : StoredReading p) (taken : Bool) (xs : List (StoredReading p))
      → xs ≡ (if taken then rows e w ++ (row ∷ []) else rows e w)
      → length xs ≤ length (rows e w) + 1
  rows_one_more w row true xs law =
      omega (arith, ap length law, length-append (rows e w) (row ∷ []))
  rows_one_more w row false xs law = omega (arith, ap length law)

  rows-try_store :
      (w : Work e) (row : StoredReading p)
      → length (rows e (try_store e w row)) ≤ length (rows e w) + 1
  unfolding try_store
  rows-try_store w row =
      rows_one_more w row (e.warm.try_send w.warm_tx row).0 _
        (e.warm.accepted-try_send w.warm_tx row)

  Sampled-kept :
      (w w' : Work e) (row : StoredReading p)
      → seq w + 1 < 2 ^ 64
      → seq w % 10 ≡ 0
      → seq w' ≡ (seq w + 1) % 2 ^ 64
      → kept w' ≡ kept w + 1
      → w'.warm_tx ≡ w.warm_tx
      → Sampled true 1 w (try_store e w' row)
  Sampled-kept w w' row h keep s k c = record {
    forward = omega (arith, seq-try_store w' row);
    steps = omega (arith, seq-try_store w' row);
    multiples = omega (arith, seq-try_store w' row, kept-try_store w' row);
    only_kept = λ _. omega (
      arith,
      kept-try_store w' row,
      rows-try_store w' row,
      ap (λ t. length (e.warm.accepted t)) c,
    );
  }

  Sampled-store :
      (degraded : Bool) (r : Reading p) (w : Work e)
      → seq w + 1 < 2 ^ 64
      → Sampled degraded 1 w (store e degraded r w)
  unfolding store
  Sampled-store false r w h =
      Sampled-same false w _ 1 (seq-try_store w _) (kept-try_store w _) (λ d. cc)
  Sampled-store true r w h = elim (Bool-cases (w.degrade_seq % 10 == 0)) [
    | inl keep ↦ rw keep (Sampled-kept w _ _ h ((==_iff _ 0).0 keep) refl refl refl)
    | inr skip ↦ rw skip (record {
      forward = omega arith;
      steps = omega arith;
      multiples = ground arith;
      only_kept = λ _. omega arith;
    })
  ]

  Sampled-alarm :
      (degraded : Bool) (meta : SensorMeta p) (r : Reading p) (w : Work e) (o : Option Severity)
      → Sampled degraded 0 w (alarm e meta r w o)
  unfolding alarm send_violation
  Sampled-alarm degraded meta r w o =
      Sampled-same degraded w (alarm e meta r w o) 0 (ground arith) (ground arith)
        (λ _. ground arith)

  Sampled-settle :
      (degraded : Bool) (meta : SensorMeta p) (r : Reading p) (within : Bool) (w : Work e)
      → seq w + 1 < 2 ^ 64
      → Sampled degraded 1 w (settle e degraded meta r within w)
  unfolding settle
  Sampled-settle degraded meta r true w h =
      let quiet = Sampled-alarm degraded meta r w (evaluate meta (p.widen r.value)) in
      Sampled-trans degraded w _ _ 0 1 quiet
        (Sampled-store degraded r _ (omega (arith, quiet.steps)))
  Sampled-settle degraded meta r false w h =
      Sampled-trans degraded w _ _ 1 0 (Sampled-same degraded w _ 1 refl refl (λ _. refl))
        (Sampled-alarm degraded meta r _ _)

  Sampled-screen :
      (degraded : Bool) (now : ℕ) (meta : SensorMeta p) (r : Reading p) (active finite : Bool)
      (w : Work e)
      → seq w + 1 < 2 ^ 64
      → Sampled degraded 1 w (screen e degraded now meta r active finite w)
  unfolding screen accept
  Sampled-screen degraded now meta r false finite w h =
      Sampled-same degraded w _ 1 refl refl (λ _. refl)
  Sampled-screen degraded now meta r true false w h =
      Sampled-same degraded w _ 1 refl refl (λ _. refl)
  Sampled-screen degraded now meta r true true w h =
      Sampled-trans degraded w _ _ 0 1 (Sampled-same degraded w _ 0 refl refl (λ _. refl))
        (Sampled-settle degraded meta r _ _ h)

  pub Sampled-judge :
      (degraded : Bool) (now : ℕ) (r : Reading p) (w : Work e) (o : Option (SensorMeta p))
      → seq w + 1 < 2 ^ 64
      → Sampled degraded 1 w (judge e degraded now r w o)
  unfolding judge
  Sampled-judge degraded now r w none h = Sampled-same degraded w _ 1 refl refl (λ _. refl)
  Sampled-judge degraded now r w (some meta) h = Sampled-screen degraded now meta r _ _ w h

  ingest_readings-Sampled :
      (reg : Registry p) (degraded : Bool) (clock : ℕ → ℕ) (i : ℕ) (rs : List (Reading p))
      (w : Work e)
      → seq w + length rs < 2 ^ 64
      → Sampled degraded (length rs) w (ingest_readings e reg degraded clock i rs w)
  unfolding ingest_readings
  ingest_readings-Sampled reg degraded clock i [] w h =
      Sampled-same degraded w w 0 refl refl (λ _. refl)
  ingest_readings-Sampled reg degraded clock i (r ∷ rs) w h =
      let first =
        Sampled-judge degraded (clock i) r w (lookup r.sensor_id reg.sensors) (omega arith) in
      let one_more : 1 + length rs ≡ suc (length rs) = omega arith in
      rw one_more at (
        Sampled-trans degraded w _ _ 1 (length rs) first
          (ingest_readings-Sampled reg degraded clock (i + 1) rs _ (omega (arith, first.steps))))

  -- For a handler that runs its loop alone, over which the sampling counter does not wrap: in degraded
  -- mode the warm lane takes at most one reading in ten of the batch, and one more; in either mode
  -- the readings counted as kept are the multiples of ten that the counter passes.
  pub degraded_tenth :
      (reg : Registry p) (degraded : Bool) (clock : ℕ → ℕ) (i : ℕ) (rs : List (Reading p))
      (w : Work e)
      → seq w + length rs < 2 ^ 64
      → let w' = ingest_readings e reg degraded clock i rs w in
        (kept w' + tens (seq w) ≡ kept w + tens (seq w'))
        × (degraded ≡ true → length (rows e w') ≤ length (rows e w) + length rs / 10 + 1)
  degraded_tenth reg degraded clock i rs w h =
      let s = ingest_readings-Sampled reg degraded clock i rs w h in
      (s.multiples, λ d. omega (arith, s.multiples, s.only_kept d, s.steps, s.forward))
