-- ===== src/Ingest/Tests.antt =====
-- The handler on a small batch.
use hazshield_ingest.Prelude.{
  ◌↔◌, ◌<◌, ◌≤◌, ℕ, ◌+◌, ◌/◌, ◌≤◌, ◌≡◌, ◌↔◌, refl, Bool, true, false, none, some, length,
  collect_some, arith,
}
use hazshield_ingest.Platform.Sample.{nan, quarters, sample, sample-Ieee}
use hazshield_ingest.Types.{critical}
use hazshield_ingest.Limiter.{allow, rate, burst, spend}
use hazshield_ingest.Registry.{SensorMeta}
use hazshield_ingest.Ingest.{
  evaluate, send_violation, alarm, try_store, store, settle, accept, screen, judge, ingest_readings,
  ingest_batch, status,
}
use hazshield_ingest.Ingest.Gateway.{AppState, ok, err, batch_too_large}
use hazshield_ingest.Ingest.Threshold.{Reached, rank, evaluate_exact}
use hazshield_ingest.Ingest.Storage.{row_in, rows, Stored, ingest_readings-Stored}
use hazshield_ingest.Ingest.Sampling.{seq, kept, tens, degraded_tenth}
use hazshield_ingest.Ingest.Entries.{get-ingest_readings}
use hazshield_ingest.Ingest.Outcome.{status-ingest_batch}
use hazshield_ingest.Fixtures.{methane, oxygen, plant, services, batch, app, gateway, second}

abbrev clock : ℕ → ℕ
clock i = second

evaluate_exact_example :
    ((evaluate oxygen (quarters 60) ≡ some critical) ↔ Reached oxygen (quarters 68) (quarters 60))
    × ((1 ≤ rank (evaluate oxygen (quarters 60))) ↔ Reached oxygen (quarters 76) (quarters 60))
    × ((evaluate oxygen (quarters 60) ≡ none) ↔ (¬ Reached oxygen (quarters 76) (quarters 60)))
evaluate_exact_example = evaluate_exact sample-Ieee oxygen (quarters 60) refl refl

no_critical : SensorMeta sample
no_critical = record methane { crit_threshold = nan }

batch_run :
    (ingest_batch services app clock batch (gateway 20)).0
    ≡ ok (record {
      accepted = 4;
      rejected_unknown = 1;
      rejected_inactive = 1;
      violations_warn = 1;
      violations_critical = 2;
      rate_limited = 0;
      rejected_invalid = 1;
      degraded = false;
    })
unfolding ingest_batch ingest_readings judge screen accept settle store try_store alarm
    send_violation evaluate allow rate burst spend
batch_run = refl

-- With room for nine rows of fifty the watermark is passed, and of the four readings one is kept.
degraded_run :
    let w' = (ingest_batch services app clock batch (gateway 9)).1 in
    (length (rows services w') ≡ 1)
    × (w'.metrics.warm_degraded_kept ≡ 1)
    × (w'.metrics.warm_degraded_dropped ≡ 3)
    × (length w'.hot_tx.pending ≡ 3)
unfolding ingest_batch ingest_readings judge screen accept settle store try_store alarm
    send_violation evaluate allow rate burst spend
degraded_run = (refl, refl, refl, refl)

-- A reading kept by sampling that meets a full lane is counted as kept and as dropped.
kept_and_dropped :
    let w' = (ingest_batch services app clock batch (gateway 0)).1 in
    (length (rows services w') ≡ 0)
    × (w'.metrics.warm_degraded_kept ≡ 1)
    × (w'.metrics.warm_degraded_dropped ≡ 4)
unfolding ingest_batch ingest_readings judge screen accept settle store try_store alarm
    send_violation evaluate allow rate burst spend
kept_and_dropped = (refl, refl, refl)

ingest_readings-Stored_example :
    Stored services
      (collect_some (row_in plant true) batch.readings)
      (gateway 9)
      (ingest_readings services plant true clock 0 batch.readings (gateway 9))
ingest_readings-Stored_example =
    ingest_readings-Stored services plant true clock 0 batch.readings (gateway 9)

degraded_tenth_example :
    let w' = ingest_readings services plant true clock 0 batch.readings (gateway 9) in
    (kept services w' + tens (seq services (gateway 9))
      ≡ kept services (gateway 9) + tens (seq services w'))
    × (◌≡◌ {A = Bool} true true
        → length (rows services w')
          ≤ length (rows services (gateway 9)) + length batch.readings / 10 + 1)
degraded_tenth_example =
    degraded_tenth services plant true clock 0 batch.readings (gateway 9) (omega arith)

small_app : AppState sample
small_app = record app { max_batch_size = 6 }

status-ingest_batch_example :
    ((status (ingest_batch services small_app clock batch (gateway 20)).0 ≡ 413) ↔ (6 < 7))
    × ((status (ingest_batch services small_app clock batch (gateway 20)).0 ≡ 200) ↔ (7 ≤ 6))
    × (6 < 7
        → ingest_batch services small_app clock batch (gateway 20) ≡ (
          err (batch_too_large 7 6),
          record (gateway 20) { metrics = record ((gateway 20).metrics) { handler_seconds = 1 } },
        ))
unfolding small_app
status-ingest_batch_example = status-ingest_batch services small_app clock batch (gateway 20)

get-ingest_readings_example :
    services.buckets.get
      (ingest_readings services plant false clock 0 batch.readings (gateway 20)).limiter
      9
    ≡ services.buckets.get (gateway 20).limiter 9
get-ingest_readings_example =
    get-ingest_readings services plant 9 refl false clock 0 batch.readings (gateway 20)
