-- ===== src/Limiter.antt =====
-- src/limiter.rs: a token bucket for each sensor, refilled on access.
-- The clock is an argument: `now` is the `Instant::now()` of the call, in nanoseconds, and
-- `duration_since` stops at zero. DashMap is the parameter `Buckets`.
pub mod Buckets
pub mod Tokens
pub mod Flood
pub mod Isolation
mod Tests
use hazshield_ingest.Prelude.{
  ℕ, ◌-◌, Bool, true, false, Option, none, some, List, [], ◌∷◌, if◌then◌else◌,
}
use hazshield_ingest.Platform.{Platform}
use hazshield_ingest.Types.{Uuid}
use Buckets.{BucketMap}

pub record Bucket (p : Platform) : Type 0 where
  pub tokens : p.F64
  pub last : ℕ

module _ (p : Platform) where
  -- tokens for each second
  unfoldable pub rate : p.F32 → p.F64
  rate hz = p.fmax (p.mul (p.widen hz) (p.lit 2)) (p.lit 1)

  -- the bucket's cap
  unfoldable pub burst : p.F32 → p.F64
  burst hz = p.fmax (p.mul (p.widen hz) (p.lit 5)) (p.lit 5)

  -- `entry(sensor_id).or_insert(..)`: a sensor's first bucket is full
  abbrev pub or_insert : Option (Bucket p) → p.F64 → ℕ → Bucket p
  or_insert none cap now = record { tokens = cap; last = now }
  or_insert (some b) cap now = b

  -- the tokens of a bucket at `now`, before one is taken
  abbrev pub refilled : Bucket p → p.F32 → ℕ → p.F64
  refilled b hz now =
      p.fmin (p.add b.tokens (p.mul (p.as_secs (now - b.last)) (rate hz))) (burst hz)

  -- whether a token is there, and the bucket that is left
  unfoldable pub spend : p.F64 → ℕ → Bool × Bucket p
  spend tokens now =
      if p.le (p.lit 1) tokens
      then (true, record { tokens = p.sub tokens (p.lit 1); last = now })
      else (false, record { tokens = tokens; last = now })

  module _ (s : BucketMap (Bucket p)) where
    -- `RateLimiter`, whose one field is the map of buckets
    abbrev pub RateLimiter : Type 0
    RateLimiter = s.Map

    unfoldable pub allow : RateLimiter → Uuid → p.F32 → ℕ → Bool × RateLimiter
    allow m id hz now =
        let b = or_insert (s.get m id) (burst hz) now in
        let (granted, b') = spend (refilled b hz now) now in (granted, s.put m id b')

    -- The answers to a sequence of calls, each with its sensor, its declared rate and its instant.
    pub run : RateLimiter → List (Uuid × p.F32 × ℕ) → List (Uuid × Bool)
    run m [] = []
    run m ((id, hz, now) ∷ calls) =
        let (granted, m') = allow m id hz now in (id, granted) ∷ run m' calls
