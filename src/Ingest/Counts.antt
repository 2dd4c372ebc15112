-- ===== src/Ingest/Counts.antt =====
-- The summary that src/ingest.rs returns: its counters add up.
use hazshield_ingest.Prelude.{
  ℕ, suc, ◌+◌, ◌≤◌, ◌≡◌, refl, Bool, true, false, Option, none, some, List, [], ◌∷◌, ◌++◌, lookup,
  length, to_list, collect_some, if◌then◌else◌, arith, ◌∙◌, ◌&&◌,
}
use hazshield_ingest.Platform.{Platform}
use hazshield_ingest.Types.{Severity, warn, critical, Reading, Violation}
use hazshield_ingest.Registry.{SensorMeta, Registry}
use hazshield_ingest.Ingest.{
  evaluate, count_violation, send_violation, alarm, try_store, store, settle, accept, screen, judge,
  ingest_readings,
}
use hazshield_ingest.Ingest.Gateway.{Services, IngestSummary, Work}
use hazshield_ingest.Ingest.Delivery.{raised, judged, violation_in}

-- How many of the violations have a severity.
abbrev one_if : Severity → Severity → ℕ
one_if warn warn = 1
one_if critical critical = 1
one_if warn critical = 0
one_if critical warn = 0

module _ {p : Platform} where
  abbrev pub count_severity : Severity → List (Violation p) → ℕ
  count_severity s [] = 0
  count_severity s (v ∷ vs) = one_if s v.severity + count_severity s vs

abbrev tallied : Option Severity → IngestSummary → IngestSummary
tallied none sum = sum
tallied (some s) sum = count_violation s sum

-- From `before` to `after`, a loop over `n` readings with the violations `vs` among them.
module _ {p : Platform} where
  pub record Counted (n : ℕ) (vs : List (Violation p)) (before after : IngestSummary) : Type 0 where
    -- every reading has one of the four outcomes
    pub total :
        after.accepted + after.rejected_unknown + after.rejected_inactive + after.rejected_invalid
        ≡ before.accepted + before.rejected_unknown + before.rejected_inactive
          + before.rejected_invalid + n
    pub warnings : after.violations_warn ≡ before.violations_warn + count_severity warn vs
    pub criticals :
        after.violations_critical ≡ before.violations_critical + count_severity critical vs
    -- violations and refusals by the limiter are among the accepted
    pub among_accepted :
        after.violations_warn + after.violations_critical + before.accepted
        ≤ before.violations_warn + before.violations_critical + after.accepted
    pub limited_among_accepted :
        after.rate_limited + before.accepted ≤ before.rate_limited + after.accepted
    pub degraded_kept : after.degraded ≡ before.degraded

  pub Counted-trans :
      (a b c : IngestSummary) (n : ℕ) (o : Option (Violation p)) (vs : List (Violation p))
      → Counted 1 (to_list o) a b
      → Counted n vs b c
      → Counted (suc n) (to_list o ++ vs) a c
  Counted-trans a b c n none vs h k = record {
    total = omega (arith, h.total, k.total);
    warnings = omega (arith, h.warnings, k.warnings);
    criticals = omega (arith, h.criticals, k.criticals);
    among_accepted = omega (arith, h.among_accepted, k.among_accepted);
    limited_among_accepted = omega (arith, h.limited_among_accepted, k.limited_among_accepted);
    degraded_kept = k.degraded_kept ∙ h.degraded_kept;
  }
  Counted-trans a b c n (some v) vs h k = record {
    total = omega (arith, h.total, k.total);
    warnings = omega (arith, h.warnings, k.warnings);
    criticals = omega (arith, h.criticals, k.criticals);
    among_accepted = omega (arith, h.among_accepted, k.among_accepted);
    limited_among_accepted = omega (arith, h.limited_among_accepted, k.limited_among_accepted);
    degraded_kept = k.degraded_kept ∙ h.degraded_kept;
  }

module _ {p : Platform} (e : Services p) where
  sum-alarm :
      (meta : SensorMeta p) (r : Reading p) (w : Work e) (o : Option Severity)
      → (alarm e meta r w o).sum ≡ tallied o w.sum
  unfolding alarm send_violation
  sum-alarm meta r w none = refl
  sum-alarm meta r w (some sev) = refl

  sum-store : (degraded : Bool) (r : Reading p) (w : Work e) → (store e degraded r w).sum ≡ w.sum
  unfolding store try_store
  sum-store degraded r w = ground arith

  abbrev limited : Bool → IngestSummary → IngestSummary
  limited true sum = sum
  limited false sum = record sum { rate_limited = sum.rate_limited + 1 }

  sum-settle :
      (degraded : Bool) (meta : SensorMeta p) (r : Reading p) (within : Bool) (w : Work e)
      → (settle e degraded meta r within w).sum
        ≡ tallied (evaluate meta (p.widen r.value)) (limited within w.sum)
  unfolding settle
  sum-settle degraded meta r true w = sum-store degraded r _ ∙ sum-alarm meta r w _
  sum-settle degraded meta r false w = sum-alarm meta r _ _

  Counted-accepted :
      (meta : SensorMeta p) (r : Reading p) (within : Bool) (sum : IngestSummary)
      (o : Option Severity)
      → Counted 1
          (to_list (raised meta r o))
          sum
          (tallied o (limited within (record sum { accepted = sum.accepted + 1 })))
  Counted-accepted meta r true sum none = ground arith
  Counted-accepted meta r true sum (some warn) = ground arith
  Counted-accepted meta r true sum (some critical) = ground arith
  Counted-accepted meta r false sum none = ground arith
  Counted-accepted meta r false sum (some warn) = ground arith
  Counted-accepted meta r false sum (some critical) = ground arith

  Counted-screen :
      (degraded : Bool) (now : ℕ) (meta : SensorMeta p) (r : Reading p) (active finite : Bool)
      (w : Work e)
      → Counted 1
          (to_list
            (if active && finite then raised meta r (evaluate meta (p.widen r.value)) else none))
          w.sum
          (screen e degraded now meta r active finite w).sum
  unfolding screen accept
  Counted-screen degraded now meta r false finite w = ground arith
  Counted-screen degraded now meta r true false w = ground arith
  Counted-screen degraded now meta r true true w =
      rw (sum-settle degraded meta r _ _) (Counted-accepted meta r _ w.sum _)

  pub Counted-judge :
      (degraded : Bool) (now : ℕ) (r : Reading p) (w : Work e) (o : Option (SensorMeta p))
      → Counted 1 (to_list (judged r o)) w.sum (judge e degraded now r w o).sum
  unfolding judge
  Counted-judge degraded now r w none = ground arith
  Counted-judge degraded now r w (some meta) = Counted-screen degraded now meta r _ _ w

  -- The summary counts every reading once, every violation by its severity, and as violations and as
  -- rate limited only readings that it counts as accepted.
  pub ingest_readings-Counted :
      (reg : Registry p) (degraded : Bool) (clock : ℕ → ℕ) (i : ℕ) (rs : List (Reading p))
      (w : Work e)
      → Counted
          (length rs)
          (collect_some (violation_in reg) rs)
          w.sum
          (ingest_readings e reg degraded clock i rs w).sum
  unfolding ingest_readings
  ingest_readings-Counted reg degraded clock i [] w = ground arith
  ingest_readings-Counted reg degraded clock i (r ∷ rs) w =
      Counted-trans w.sum _ _ (length rs) (violation_in reg r) (collect_some (violation_in reg) rs)
        (Counted-judge degraded (clock i) r w (lookup r.sensor_id reg.sensors))
        (ingest_readings-Counted reg degraded clock (i + 1) rs _)
