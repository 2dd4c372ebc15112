-- ===== src/System/Published.antt =====
-- The metrics of readings and violations, which the handlers of src/ingest.rs write, with all tasks of
-- src/main.rs interleaved.
pub mod Consistent
use hazshield_ingest.Prelude.{
  ℕ, ◌+◌, ◌≡◌, refl, ap, ◌∙◌, inl, inr, none, some, List, [], ◌∷◌, ◌++◌, arith, lookup,
  Option-cases, ◌≤◌, sym, subst, ◌==◌, Bool-cases,
}
use hazshield_ingest.Platform.{Platform}
use hazshield_ingest.Types.{Violation}
use hazshield_ingest.Metrics.{Metrics}
use hazshield_ingest.Metrics
use hazshield_ingest.Lane.Receiver.{Receiver}
use hazshield_ingest.Ingest.Gateway.{Services, IngestSummary}
use hazshield_ingest.Ingest.Untouched.{metrics-judge}
use hazshield_ingest.Warm
use hazshield_ingest.Warm.Untouched.{others-flush, others-step}
use hazshield_ingest.Warm.Database.{Postgres}
use hazshield_ingest.Hot
use hazshield_ingest.Hot.Untouched.{warm_part-step}
use hazshield_ingest.Hot.External.{Redis, Disk}
use hazshield_ingest.System.{
  System, Action, started, judged, published, refused, dispatched, probed, written, ticked, drained,
  dispatcher_of, writer_of, put, step, run,
}

abbrev pub total_of : (IngestSummary → ℕ) → List IngestSummary → ℕ
total_of f [] = 0
total_of f (sum ∷ sums) = f sum + total_of f sums

-- The metrics grew by the summaries `sums`.
pub record Grown (sums : List IngestSummary) (before after : Metrics) : Type 0 where
  pub accepted :
      after.readings_accepted ≡ before.readings_accepted + total_of (λ s. s.accepted) sums
  pub unknown :
      after.readings_unknown_sensor
      ≡ before.readings_unknown_sensor + total_of (λ s. s.rejected_unknown) sums
  pub inactive :
      after.readings_inactive_sensor
      ≡ before.readings_inactive_sensor + total_of (λ s. s.rejected_inactive) sums
  pub warnings :
      after.violations_warn ≡ before.violations_warn + total_of (λ s. s.violations_warn) sums
  pub criticals :
      after.violations_critical
      ≡ before.violations_critical + total_of (λ s. s.violations_critical) sums

Grown-same : (m m' : Metrics) → Metrics.published m' ≡ Metrics.published m → Grown [] m m'
Grown-same m m' same = record {
  accepted = omega (arith, ap (λ t. t.0) same);
  unknown = omega (arith, ap (λ t. t.1) same);
  inactive = omega (arith, ap (λ t. t.2) same);
  warnings = omega (arith, ap (λ t. t.3) same);
  criticals = omega (arith, ap (λ t. t.4) same);
}

pub total_of-append :
    (f : IngestSummary → ℕ) (a b : List IngestSummary)
    → total_of f (a ++ b) ≡ total_of f a + total_of f b
total_of-append f [] b = omega arith
total_of-append f (s ∷ a) b = omega (arith, total_of-append f a b)

Grown-trans :
    (a b : List IngestSummary) (m m' m'' : Metrics)
    → Grown a m m'
    → Grown b m' m''
    → Grown (a ++ b) m m''
Grown-trans a b m m' m'' g h = record {
  accepted = omega (arith, g.accepted, h.accepted, total_of-append (λ s. s.accepted) a b);
  unknown = omega (arith, g.unknown, h.unknown, total_of-append (λ s. s.rejected_unknown) a b);
  inactive = omega (arith, g.inactive, h.inactive, total_of-append (λ s. s.rejected_inactive) a b);
  warnings = omega (arith, g.warnings, h.warnings, total_of-append (λ s. s.violations_warn) a b);
  criticals =
      omega (arith, g.criticals, h.criticals, total_of-append (λ s. s.violations_critical) a b);
}

module _ {p : Platform} {e : Services p} {g : Postgres} {x : Redis} {k : Disk}
    (hot_rx : Receiver e.hot) (warm_rx : Receiver e.warm) (to_json : Violation p → List ℕ) where
  abbrev pub summary_of : System e g x k → Action p → List IngestSummary
  summary_of s (published i) = s.sums i ∷ []
  summary_of s _ = []

  -- The summaries that handlers publish in a run, in order.
  abbrev pub summaries : System e g x k → List (Action p) → List IngestSummary
  summaries s [] = []
  summaries s (a ∷ acts) = summary_of s a ++ summaries (step hot_rx warm_rx to_json s a) acts

  Grown-dispatched :
      (s : System e g x k)
      → Grown [] s.work.metrics (step hot_rx warm_rx to_json s dispatched).work.metrics
  unfolding step
  Grown-dispatched s = elim (Option-cases (hot_rx.recv s.work.hot_tx)) [
    | inl waits ↦ rw (waits, step) (Grown-same _ _ refl)
    | inr ((v, c), takes) ↦
        rw (takes, step)
          (Grown-same _ _
            (ap (λ t. t.3) (warm_part-step to_json (dispatcher_of s) (Hot.received v))))
  ]

  Grown-written :
      (s : System e g x k)
      → Grown [] s.work.metrics (step hot_rx warm_rx to_json s written).work.metrics
  unfolding step
  Grown-written s = elim (Option-cases (warm_rx.recv s.work.warm_tx)) [
    | inl waits ↦ rw (waits, step) (Grown-same _ _ refl)
    | inr ((r, c), takes) ↦
        rw (takes, step)
          (Grown-same _ _ (ap (λ t. t.3) (others-step (writer_of s) (Warm.received r))))
  ]

  Grown-step :
      (s : System e g x k) (a : Action p)
      → Grown (summary_of s a) s.work.metrics (step hot_rx warm_rx to_json s a).work.metrics
  unfolding step
  Grown-step s (started i a) = Grown-same _ _ refl
  Grown-step s (judged i a now r) = Grown-same _ _ (
      metrics-judge e Metrics.published (λ m. refl) (λ m. refl) (λ m. refl) (s.sums i).degraded now
        r (record (s.work) { sum = s.sums i }) (lookup r.sensor_id a.registry.sensors))
  Grown-step s (published i) = record {
    accepted = omega arith;
    unknown = omega arith;
    inactive = omega arith;
    warnings = omega arith;
    criticals = omega arith;
  }
  Grown-step s refused = Grown-same _ _ refl
  Grown-step s dispatched = Grown-dispatched s
  Grown-step s probed =
      Grown-same _ _ (ap (λ t. t.3) (warm_part-step to_json (dispatcher_of s) Hot.probed))
  Grown-step s written = Grown-written s
  Grown-step s ticked = Grown-same _ _ (ap (λ t. t.3) (others-step (writer_of s) Warm.tick))
  Grown-step s drained = Grown-same _ _ (ap (λ t. t.3) (others-flush (writer_of s)))

  pub Grown-run :
      (acts : List (Action p)) (s : System e g x k)
      → Grown (summaries s acts) s.work.metrics (run hot_rx warm_rx to_json s acts).work.metrics
  unfolding run
  Grown-run [] s = Grown-same _ _ refl
  Grown-run (a ∷ acts) s =
      Grown-trans (summary_of s a) _ _ _ _ (Grown-step s a)
        (Grown-run acts (step hot_rx warm_rx to_json s a))
