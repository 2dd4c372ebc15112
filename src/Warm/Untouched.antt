-- ===== src/Warm/Untouched.antt =====
-- The counters of the other tasks, which the writer of src/warm.rs leaves alone.
use hazshield_ingest.Prelude.{ℕ, ◌+◌, ◌≡◌, ◌∙◌, arith}
use hazshield_ingest.Platform.{Platform}
use hazshield_ingest.Metrics.{Metrics, published}
use hazshield_ingest.Warm.Database.{Postgres}
use hazshield_ingest.Warm.{
  Event, received, tick, Writer, push, settle_flush, flush, flush_if_full, shed, step,
}

-- Lost violations, readings that the handlers dropped, violations sent or spilled, what the
-- handlers publish, and the readings kept by sampling.
abbrev pub others : Metrics → ℕ × ℕ × ℕ × (ℕ × ℕ × ℕ × ℕ × ℕ) × ℕ
others m = (
  m.hot_lost_total,
  m.warm_degraded_dropped,
  m.hot_sent_total + m.hot_spilled_total,
  published m,
  m.warm_degraded_kept,
)

module _ {p : Platform} {g : Postgres} where
  pub others-flush : (w : Writer p g) → others (flush g w).metrics ≡ others w.metrics
  unfolding flush settle_flush
  others-flush w = ground arith

  others-flush_if_full : (w : Writer p g) → others (flush_if_full g w).metrics ≡ others w.metrics
  unfolding flush_if_full
  others-flush_if_full w = ground (arith, others-flush w)

  others-shed : (w : Writer p g) → others (shed g w).metrics ≡ others w.metrics
  unfolding shed
  others-shed w = ground arith

  pub others-step :
      (w : Writer p g) (ev : Event p) → others (step g w ev).metrics ≡ others w.metrics
  unfolding step push
  others-step w (received r) =
      others-shed (flush_if_full g (push g w r)) ∙ others-flush_if_full (push g w r)
  others-step w tick = others-flush w
