-- ===== src/System/Published/Consistent.antt =====
-- The metrics of src/metrics.rs that the handlers of src/ingest.rs publish agree with one another, with
-- all tasks of src/main.rs interleaved.
use hazshield_ingest.Prelude.{
  ℕ, ◌+◌, inl, inr, List, [], ◌∷◌, ◌++◌, arith, lookup, ◌≤◌, sym, subst, ◌==◌, Bool-cases,
}
use hazshield_ingest.Platform.{Platform}
use hazshield_ingest.Types.{Violation}
use hazshield_ingest.Lane.Receiver.{Receiver}
use hazshield_ingest.Ingest.Gateway.{Services, IngestSummary}
use hazshield_ingest.Warm.Database.{Postgres}
use hazshield_ingest.Hot.External.{Redis, Disk}
use hazshield_ingest.System.{
  System, Action, started, judged, published, refused, dispatched, probed, written, ticked, drained,
  put, step, run,
}
use hazshield_ingest.System.Summaries.{sums-dispatched, sums-written}
use hazshield_ingest.Ingest.Counts.{Counted-judge}
use hazshield_ingest.System.Published.{
  total_of, total_of-append, Grown, Grown-run, summary_of, summaries,
}

-- Every summary counts no more violations than accepted readings.
abbrev IsSound : (ℕ → IngestSummary) → Type 0
IsSound sums = (i : ℕ) → (sums i).violations_warn + (sums i).violations_critical ≤ (sums i).accepted

abbrev Fits : List IngestSummary → Type 0
Fits sums =
    total_of (λ s. s.violations_warn) sums + total_of (λ s. s.violations_critical) sums
    ≤ total_of (λ s. s.accepted) sums

IsSound-put :
    (i : ℕ) (sum : IngestSummary) (sums : ℕ → IngestSummary)
    → sum.violations_warn + sum.violations_critical ≤ sum.accepted
    → IsSound sums
    → IsSound (put i sum sums)
IsSound-put i sum sums new sound j = elim (Bool-cases (j == i)) [
  | inl this ↦ rw this new
  | inr other ↦ rw other (sound j)
]

Fits-append : (a b : List IngestSummary) → Fits a → Fits b → Fits (a ++ b)
Fits-append a b f g = omega (
  arith,
  f,
  g,
  total_of-append (λ s. s.accepted) a b,
  total_of-append (λ s. s.violations_warn) a b,
  total_of-append (λ s. s.violations_critical) a b,
)

module _ {p : Platform} {e : Services p} {g : Postgres} {x : Redis} {k : Disk} where
  abbrev pub IsConsistent : System e g x k → Type 0
  IsConsistent s =
      (s.work.metrics.violations_warn + s.work.metrics.violations_critical
        ≤ s.work.metrics.readings_accepted)
      × IsSound s.sums

module _ {p : Platform} {e : Services p} {g : Postgres} {x : Redis} {k : Disk}
    (hot_rx : Receiver e.hot) (warm_rx : Receiver e.warm) (to_json : Violation p → List ℕ) where
  IsSound-step :
      (s : System e g x k) (a : Action p)
      → IsSound s.sums
      → IsSound (step hot_rx warm_rx to_json s a).sums
  unfolding step
  IsSound-step s (started i a) sound = IsSound-put i _ s.sums (omega arith) sound
  IsSound-step s (judged i a now r) sound =
      let counted =
        Counted-judge e (s.sums i).degraded now r (record (s.work) { sum = s.sums i })
          (lookup r.sensor_id a.registry.sensors) in
      IsSound-put i _ s.sums (omega (arith, counted.among_accepted, sound i)) sound
  IsSound-step s (published i) sound = sound
  IsSound-step s refused sound = sound
  IsSound-step s dispatched sound =
      subst IsSound (sym (sums-dispatched hot_rx warm_rx to_json s)) sound
  IsSound-step s probed sound = sound
  IsSound-step s written sound = subst IsSound (sym (sums-written hot_rx warm_rx to_json s)) sound
  IsSound-step s ticked sound = sound
  IsSound-step s drained sound = sound

  Fits-summary_of :
      (s : System e g x k) (a : Action p)
      → IsSound s.sums
      → Fits (summary_of hot_rx warm_rx to_json s a)
  Fits-summary_of s (published i) sound = omega (arith, sound i)
  Fits-summary_of s (started i a) sound = omega arith
  Fits-summary_of s (judged i a now r) sound = omega arith
  Fits-summary_of s refused sound = omega arith
  Fits-summary_of s dispatched sound = omega arith
  Fits-summary_of s probed sound = omega arith
  Fits-summary_of s written sound = omega arith
  Fits-summary_of s ticked sound = omega arith
  Fits-summary_of s drained sound = omega arith

  IsSound-summaries :
      (acts : List (Action p)) (s : System e g x k)
      → IsSound s.sums
      → IsSound (run hot_rx warm_rx to_json s acts).sums
        × Fits (summaries hot_rx warm_rx to_json s acts)
  unfolding run
  IsSound-summaries [] s sound = (sound, omega arith)
  IsSound-summaries (a ∷ acts) s sound =
      let (still, fit) =
        IsSound-summaries acts (step hot_rx warm_rx to_json s a) (IsSound-step s a sound) in
      (
        still,
        Fits-append (summary_of hot_rx warm_rx to_json s a)
            (summaries hot_rx warm_rx to_json (step hot_rx warm_rx to_json s a) acts)
            (Fits-summary_of s a sound) fit,
      )

  -- In any interleaving of handlers, dispatcher and writer, the metrics of readings by result and of
  -- violations by severity grow by exactly the summaries that the handlers publish; and no more
  -- violations than accepted readings are counted, in the metrics and in each summary, if that is so
  -- at the start.
  pub run-IsConsistent :
      (acts : List (Action p)) (s : System e g x k)
      → IsConsistent s
      → Grown
          (summaries hot_rx warm_rx to_json s acts)
          s.work.metrics
          (run hot_rx warm_rx to_json s acts).work.metrics
        × IsConsistent (run hot_rx warm_rx to_json s acts)
  run-IsConsistent acts s (within, sound) =
      let grown = Grown-run hot_rx warm_rx to_json acts s in
      let (still, fit) = IsSound-summaries acts s sound in
      (grown, (omega (arith, grown.accepted, grown.warnings, grown.criticals, fit, within), still))
