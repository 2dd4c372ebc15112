-- ===== src/System/Samples.antt =====
-- The sampling of src/ingest.rs in degraded mode, whose counter all handlers share, with all tasks of
-- src/main.rs interleaved.
use hazshield_ingest.Prelude.{
  ℕ, ◌+◌, ◌/◌, ◌^◌, ◌≤◌, ◌<◌, ◌≡◌, refl, ap, inl, inr, List, [], ◌∷◌, arith, lookup, Option-cases,
}
use hazshield_ingest.Platform.{Platform}
use hazshield_ingest.Types.{Violation}
use hazshield_ingest.Lane.Receiver.{Receiver}
use hazshield_ingest.Ingest.Gateway.{Services}
use hazshield_ingest.Ingest.Sampling.{tens, Sampled-judge}
use hazshield_ingest.Warm
use hazshield_ingest.Warm.Untouched.{others-flush, others-step}
use hazshield_ingest.Warm.Database.{Postgres}
use hazshield_ingest.Hot
use hazshield_ingest.Hot.Untouched.{warm_part-step}
use hazshield_ingest.Hot.External.{Redis, Disk}
use hazshield_ingest.System.{
  System, Action, started, judged, published, refused, dispatched, probed, written, ticked, drained,
  dispatcher_of, writer_of, step, run,
}

-- How many readings an action, and a run, judges.
module _ {p : Platform} where
  abbrev judging_of : Action p → ℕ
  judging_of (judged i a now r) = 1
  judging_of _ = 0

  abbrev pub judgements : List (Action p) → ℕ
  judgements [] = 0
  judgements (a ∷ acts) = judging_of a + judgements acts

module _ {p : Platform} {e : Services p} {g : Postgres} {x : Redis} {k : Disk} where
  abbrev pub seq : System e g x k → ℕ
  seq s = s.work.degrade_seq

  abbrev pub kept : System e g x k → ℕ
  kept s = s.work.metrics.warm_degraded_kept

  -- From `before` to `after`, over at most `n` readings: the counter has gone forward, and what is kept
  -- are the multiples of ten that it has passed.
  pub record Passed (n : ℕ) (before after : System e g x k) : Type 0 where
    pub forward : seq before ≤ seq after
    pub steps : seq after ≤ seq before + n
    pub multiples : kept after + tens (seq before) ≡ kept before + tens (seq after)

  Passed-same : (s s' : System e g x k) → seq s' ≡ seq s → kept s' ≡ kept s → Passed 0 s s'
  Passed-same s s' h q = record {
    forward = omega (arith, h);
    steps = omega (arith, h);
    multiples = ground (arith, h, q);
  }

module _ {p : Platform} {e : Services p} {g : Postgres} {x : Redis} {k : Disk}
    (hot_rx : Receiver e.hot) (warm_rx : Receiver e.warm) (to_json : Violation p → List ℕ) where
  Passed-dispatched : (s : System e g x k) → Passed 0 s (step hot_rx warm_rx to_json s dispatched)
  unfolding step
  Passed-dispatched s = elim (Option-cases (hot_rx.recv s.work.hot_tx)) [
    | inl waits ↦ rw (waits, step) (Passed-same s _ refl refl)
    | inr ((v, c), takes) ↦
        rw (takes, step)
          (Passed-same s _ refl
            (ap (λ t. t.4) (warm_part-step to_json (dispatcher_of s) (Hot.received v))))
  ]

  Passed-written : (s : System e g x k) → Passed 0 s (step hot_rx warm_rx to_json s written)
  unfolding step
  Passed-written s = elim (Option-cases (warm_rx.recv s.work.warm_tx)) [
    | inl waits ↦ rw (waits, step) (Passed-same s _ refl refl)
    | inr ((r, c), takes) ↦
        rw (takes, step)
          (Passed-same s _ refl (ap (λ t. t.4) (others-step (writer_of s) (Warm.received r))))
  ]

  Passed-step :
      (s : System e g x k) (a : Action p)
      → seq s + judging_of a < 2 ^ 64
      → Passed (judging_of a) s (step hot_rx warm_rx to_json s a)
  unfolding step
  Passed-step s (started i a) h = Passed-same s _ refl refl
  Passed-step s (judged i a now r) h =
      let one =
        Sampled-judge e (s.sums i).degraded now r (record (s.work) { sum = s.sums i })
          (lookup r.sensor_id a.registry.sensors) h in
      record { forward = one.forward; steps = one.steps; multiples = one.multiples }
  Passed-step s (published i) h = Passed-same s _ refl refl
  Passed-step s refused h = Passed-same s _ refl refl
  Passed-step s dispatched h = Passed-dispatched s
  Passed-step s probed h =
      Passed-same s _ refl (ap (λ t. t.4) (warm_part-step to_json (dispatcher_of s) Hot.probed))
  Passed-step s written h = Passed-written s
  Passed-step s ticked h =
      Passed-same s _ refl (ap (λ t. t.4) (others-step (writer_of s) Warm.tick))
  Passed-step s drained h = Passed-same s _ refl (ap (λ t. t.4) (others-flush (writer_of s)))

  Passed-run :
      (acts : List (Action p)) (s : System e g x k)
      → seq s + judgements acts < 2 ^ 64
      → Passed (judgements acts) s (run hot_rx warm_rx to_json s acts)
  unfolding run
  Passed-run [] s h = Passed-same s s refl refl
  Passed-run (a ∷ acts) s h =
      let one = Passed-step s a (omega (arith, h)) in
      let rest = Passed-run acts (step hot_rx warm_rx to_json s a) (omega (arith, h, one.steps)) in
      record {
        forward = omega (arith, one.forward, rest.forward);
        steps = omega (arith, one.steps, rest.steps);
        multiples = omega (arith, one.multiples, rest.multiples);
      }

  -- In any interleaving of handlers, dispatcher and writer over which the sampling counter does not
  -- wrap: the readings counted as kept, by all handlers together, are the multiples of ten that the
  -- shared counter has passed, and they are at most one in ten of the readings judged, and one more.
  pub kept-run :
      (acts : List (Action p)) (s : System e g x k)
      → seq s + judgements acts < 2 ^ 64
      → let s' = run hot_rx warm_rx to_json s acts in
        (kept s' + tens (seq s) ≡ kept s + tens (seq s'))
        × (kept s' ≤ kept s + judgements acts / 10 + 1)
  kept-run acts s h =
      let passed = Passed-run acts s h in
      (passed.multiples, omega (arith, passed.multiples, passed.forward, passed.steps))
