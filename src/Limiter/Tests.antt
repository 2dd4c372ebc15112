-- ===== src/Limiter/Tests.antt =====
-- The token bucket.
use hazshield_ingest.Prelude.{◌+◌, ◌≤◌, ◌≡◌, refl, inl, true, false, some, [], ◌∷◌, arith}
use hazshield_ingest.Platform.Sample.{nan, quarters, sample, sample-Ieee}
use hazshield_ingest.Limiter.{Bucket, rate, burst, allow, run, spend}
use hazshield_ingest.Limiter.Tokens.{Within, IsSound, allow-Within, allow_steady}
use hazshield_ingest.Limiter.Flood.{granted, flood, flood_bounded}
use hazshield_ingest.Limiter.Isolation.{answers_of, run_isolated}
use hazshield_ingest.Fixtures.{buckets, one_hz, second}

flood-run : granted (run sample buckets [] (flood sample 7 one_hz second 8)) ≡ 5
unfolding run allow rate burst spend
flood-run = refl

-- one token is earned in half a second
trickle_run :
    run sample buckets
      ((7, record { tokens = quarters 0; last = second }) ∷ [])
      ((7, one_hz, second + 250000000) ∷ (7, one_hz, second + 500000000) ∷ [])
    ≡ (7, false) ∷ (7, true) ∷ []
unfolding run allow rate burst spend
trickle_run = refl

empty-IsSound : IsSound sample sample-Ieee buckets []
empty-IsSound k b e = cc

allow-Within_example :
    ((b : Bucket sample) × (buckets.get (allow sample buckets [] 7 nan second).1 7 ≡ some b)
      × Within sample sample-Ieee (burst sample nan) b)
    × IsSound sample sample-Ieee buckets (allow sample buckets [] 7 nan second).1
allow-Within_example = allow-Within sample sample-Ieee buckets [] 7 nan second empty-IsSound

allow_steady_example : (allow sample buckets [] 7 one_hz second).0 ≡ true
allow_steady_example =
    allow_steady sample sample-Ieee buckets [] 7 one_hz second empty-IsSound (inl refl)

flood_bounded_example : granted (run sample buckets [] (flood sample 7 one_hz second 8)) ≤ 5
unfolding rate burst
flood_bounded_example =
    flood_bounded sample sample-Ieee buckets 7 one_hz second refl 8 5 [] empty-IsSound (omega arith)
      refl

run_isolated_example :
    answers_of 7 (run sample buckets [] ((8, one_hz, 0) ∷ (7, one_hz, 1) ∷ (8, one_hz, 2) ∷ []))
    ≡ answers_of 7 (run sample buckets [] ((7, one_hz, 1) ∷ []))
run_isolated_example =
    run_isolated sample buckets [] 7 ((8, one_hz, 0) ∷ (7, one_hz, 1) ∷ (8, one_hz, 2) ∷ [])
