-- ===== src/Ingest/Threshold.antt =====
-- The threshold evaluation of src/ingest.rs against its intent: which side of a threshold is
-- dangerous is read off the order of the two thresholds.
use hazshield_ingest.Prelude.{
  ℕ, ◌≤◌, ◌≡◌, ◌↔◌, true, false, Option, none, some, arith, if◌then◌else◌,
}
use hazshield_ingest.Platform.{Platform, Ieee, IsNumber}
use hazshield_ingest.Types.{Severity, warn, critical}
use hazshield_ingest.Registry.{SensorMeta}
use hazshield_ingest.Ingest.{evaluate}

module _ {p : Platform} where
  -- `v` has reached the threshold `t`, coming from the safe side.
  abbrev pub Reached : SensorMeta p → p.F64 → p.F64 → Type 0
  Reached meta t v =
      (if p.le meta.warn_threshold meta.crit_threshold then p.le t v else p.le v t) ≡ true

  -- `v'` is at least as far on the dangerous side as `v`.
  abbrev pub Worse : SensorMeta p → p.F64 → p.F64 → Type 0
  Worse meta v v' = Reached meta v v'

abbrev pub rank : Option Severity → ℕ
rank none = 0
rank (some warn) = 1
rank (some critical) = 2

module _ {p : Platform} (i : Ieee p) where
  -- For thresholds that are numbers: critical exactly when the critical threshold is reached, a
  -- warning or worse exactly when the warning threshold is, and nothing exactly when it is not.
  pub evaluate_exact :
      (meta : SensorMeta p) (v : p.F64)
      → IsNumber p meta.warn_threshold
      → IsNumber p meta.crit_threshold
      → ((evaluate meta v ≡ some critical) ↔ Reached meta meta.crit_threshold v)
        × ((1 ≤ rank (evaluate meta v)) ↔ Reached meta meta.warn_threshold v)
        × ((evaluate meta v ≡ none) ↔ (¬ Reached meta meta.warn_threshold v))
  unfolding evaluate
  evaluate_exact meta v nw nc = ground (
    arith,
    i.le_total meta.warn_threshold meta.crit_threshold nw nc,
    i.le_trans meta.warn_threshold meta.crit_threshold v,
    i.le_trans v meta.crit_threshold meta.warn_threshold,
  )

  -- A value further on the dangerous side is never judged milder, whatever the thresholds are.
  pub evaluate_mono :
      (meta : SensorMeta p) (v v' : p.F64)
      → Worse meta v v'
      → rank (evaluate meta v) ≤ rank (evaluate meta v')
  unfolding evaluate
  evaluate_mono meta v v' h = ground (
    arith,
    i.le_trans meta.warn_threshold v v',
    i.le_trans meta.crit_threshold v v',
    i.le_trans v' v meta.warn_threshold,
    i.le_trans v' v meta.crit_threshold,
  )

  not-le_nan : (x c : p.F64) → p.le c c ≡ false → (p.le x c ≡ false) × (p.le c x ≡ false)
  not-le_nan x c n = ground (arith, i.le_right x c, i.le_left c x)

  -- A critical threshold that is NaN turns any sensor into a low-alarm sensor with no critical level:
  -- it warns at or below the warning threshold, and is silent above it.
  evaluate_crit_nan :
      (meta : SensorMeta p) (v : p.F64)
      → p.le meta.crit_threshold meta.crit_threshold ≡ false
      → evaluate meta v ≡ (if p.le v meta.warn_threshold then some warn else none)
  unfolding evaluate
  evaluate_crit_nan meta v n = ground (
    arith,
    not-le_nan meta.warn_threshold meta.crit_threshold n,
    not-le_nan v meta.crit_threshold n,
  )
