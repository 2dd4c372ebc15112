-- ===== src/Limiter/Tokens.antt =====
-- One bucket of src/limiter.rs: its bounds, whatever rate the registry declares (NaN included),
-- and who is never refused.
use hazshield_ingest.Prelude.{
  ℕ, ◌-◌, ◌^◌, ◌≤◌, ◌≡◌, ◌⊎◌, inl, inr, true, false, none, some, arith, Bool-cases, Option-cases,
  ==_iff, ◌==◌,
}
use hazshield_ingest.Platform.{Platform, Ieee, IsNumber}
use hazshield_ingest.Types.{Uuid}
use hazshield_ingest.Limiter.{Bucket, rate, burst, or_insert, refilled, spend, allow}
use hazshield_ingest.Limiter.Buckets.{BucketMap}

module _ (p : Platform) (i : Ieee p) where
  lit-IsNumber : (n : ℕ) → n ≤ 2 ^ 53 → IsNumber p (p.lit n)
  lit-IsNumber n h = i.le-lit n n (omega arith) h

  pub five-le-burst : (hz : p.F32) → p.le (p.lit 5) (burst p hz) ≡ true
  unfolding burst
  five-le-burst hz = i.le-fmax _ (p.lit 5) (lit-IsNumber 5 (omega arith))

  one-le-burst : (hz : p.F32) → p.le (p.lit 1) (burst p hz) ≡ true
  one-le-burst hz = i.le_trans _ _ _ (i.le-lit 1 5 (omega arith) (omega arith)) (five-le-burst hz)

  zero-le-burst : (hz : p.F32) → p.le (p.lit 0) (burst p hz) ≡ true
  zero-le-burst hz = i.le_trans _ _ _ (i.le-lit 0 1 (omega arith) (omega arith)) (one-le-burst hz)

  pub zero-le-rate : (hz : p.F32) → p.le (p.lit 0) (rate p hz) ≡ true
  unfolding rate
  zero-le-rate hz =
      i.le_trans _ _ _ (i.le-lit 0 1 (omega arith) (omega arith))
        (i.le-fmax _ (p.lit 1) (lit-IsNumber 1 (omega arith)))

  abbrev pub gain : Bucket p → p.F32 → ℕ → p.F64
  gain b hz now = p.mul (p.as_secs (now - b.last)) (rate p hz)

  -- A bound that the cap meets, and that the tokens or the gain meet, is met after the refill.
  le-refilled :
      (b : Bucket p) (hz : p.F32) (now : ℕ) (c : p.F64)
      → p.le (p.lit 0) b.tokens ≡ true
      → p.le (p.lit 0) c ≡ true
      → p.le c (burst p hz) ≡ true
      → (p.le c (gain b hz now) ≡ true) ⊎ (p.le (gain b hz now) (gain b hz now) ≡ false)
      → p.le c (refilled p b hz now) ≡ true
  le-refilled b hz now c ht hc hb (inl h) = i.le-fmin c _ _ (i.le-add _ c _ ht hc h) hb
  le-refilled b hz now c ht hc hb (inr nan) = rw (i.fmin_nan _ _ (i.add_nan _ _ nan)) hb

  pub zero-le-refilled :
      (b : Bucket p) (hz : p.F32) (now : ℕ)
      → p.le (p.lit 0) b.tokens ≡ true
      → p.le (p.lit 0) (refilled p b hz now) ≡ true
  zero-le-refilled b hz now ht =
      le-refilled b hz now (p.lit 0) ht (lit-IsNumber 0 (omega arith)) (zero-le-burst hz)
        (i.mul_nonneg _ _ (i.as_secs_nonneg _) (zero-le-rate hz))

  pub refilled-le-burst :
      (b : Bucket p) (hz : p.F32) (now : ℕ) → p.le (refilled p b hz now) (burst p hz) ≡ true
  refilled-le-burst b hz now = i.fmin-le _ _ (i.le_right _ _ (five-le-burst hz))

  -- The tokens of a bucket: a number, at least zero and at most the cap.
  pub record Within (cap : p.F64) (b : Bucket p) : Type 0 where
    pub nonneg : p.le (p.lit 0) b.tokens ≡ true
    pub capped : p.le b.tokens cap ≡ true

  spend-Within :
      (t cap : p.F64) (now : ℕ)
      → p.le (p.lit 0) t ≡ true
      → p.le t cap ≡ true
      → Within cap (spend p t now).1
  unfolding spend
  spend-Within t cap now h k = elim (Bool-cases (p.le (p.lit 1) t)) [
    | inl e ↦
        rw e
          (record { nonneg = i.sub_one_nonneg t e; capped = i.le_trans _ _ _ (i.sub_one-le t e) k })
    | inr e ↦ rw e (record { nonneg = h; capped = k })
  ]

  module _ (s : BucketMap (Bucket p)) where
    -- Every bucket of the map holds a number of tokens that is at least zero.
    abbrev pub IsSound : s.Map → Type 0
    IsSound m = (k : Uuid) (b : Bucket p) → s.get m k ≡ some b → p.le (p.lit 0) b.tokens ≡ true

    pub zero-le-or_insert :
        (m : s.Map) (id : Uuid) (hz : p.F32) (now : ℕ)
        → IsSound m
        → p.le (p.lit 0) (or_insert p (s.get m id) (burst p hz) now).tokens ≡ true
    zero-le-or_insert m id hz now sound = elim (Option-cases (s.get m id)) [
      | inl e ↦ rw e (zero-le-burst hz)
      | inr (b, e) ↦ rw e (sound id b e)
    ]

    -- After any call the sensor has a bucket with at least zero tokens and at most the cap of the
    -- declared rate, and every bucket of the map still holds a number that is at least zero. This
    -- holds for every declared rate, also NaN, infinite or negative.
    pub allow-Within :
        (m : s.Map) (id : Uuid) (hz : p.F32) (now : ℕ)
        → IsSound m
        → ((b : Bucket p) × (s.get (allow p s m id hz now).1 id ≡ some b) × Within (burst p hz) b)
          × IsSound (allow p s m id hz now).1
    unfolding allow
    allow-Within m id hz now sound =
        ((left, s.get-put_self m id left, within), λ k b e. keeps k b e)
      where
        b₀ : Bucket p
        b₀ = or_insert p (s.get m id) (burst p hz) now

        left : Bucket p
        left = (spend p (refilled p b₀ hz now) now).1

        within : Within (burst p hz) left
        within =
            spend-Within _ _ now (zero-le-refilled b₀ hz now (zero-le-or_insert m id hz now sound))
              (refilled-le-burst b₀ hz now)

        keeps :
            (k : Uuid) (b : Bucket p)
            → s.get (s.put m id left) k ≡ some b
            → p.le (p.lit 0) b.tokens ≡ true
        keeps k b e = elim (Bool-cases (id == k)) [
          | inl same ↦ ground (arith, ==_iff id k, s.get-put_self m id left, within.nonneg)
          | inr other ↦ sound k b (ground (arith, ==_iff id k, s.get-put_ne m id k left))
        ]

    granted_of_one-le :
        (m : s.Map) (id : Uuid) (hz : p.F32) (now : ℕ)
        → p.le (p.lit 1) (refilled p (or_insert p (s.get m id) (burst p hz) now) hz now) ≡ true
        → (allow p s m id hz now).0 ≡ true
    unfolding allow spend
    granted_of_one-le m id hz now h = rw h

    -- The first reading of a sensor is within budget, and so is one that comes after a gap that
    -- earns a token at the sensor's rate.
    pub allow_steady :
        (m : s.Map) (id : Uuid) (hz : p.F32) (now : ℕ)
        → IsSound m
        → ((s.get m id ≡ none)
            ⊎ ((b : Bucket p) × (s.get m id ≡ some b) × (p.le (p.lit 1) (gain b hz now) ≡ true)))
        → (allow p s m id hz now).0 ≡ true
    allow_steady m id hz now sound (inl e) = granted_of_one-le m id hz now (rw e first)
      where
        full : Bucket p
        full = record { tokens = burst p hz; last = now }

        -- the cap is kept by a refill that adds a number, and taken anew by one that adds NaN
        kept :
            (p.le (p.lit 0) (gain full hz now) ≡ true)
              ⊎ (p.le (gain full hz now) (gain full hz now) ≡ false)
            → p.le (p.lit 1) (refilled p full hz now) ≡ true
        kept (inl h) =
            i.le-fmin _ _ _
              (i.le-add_left _ _ _ (i.le-lit 0 1 (omega arith) (omega arith)) (one-le-burst hz) h)
              (one-le-burst hz)
        kept (inr nan) = rw (i.fmin_nan _ _ (i.add_nan _ _ nan)) (one-le-burst hz)

        first : p.le (p.lit 1) (refilled p full hz now) ≡ true
        first = kept (i.mul_nonneg _ _ (i.as_secs_nonneg _) (zero-le-rate hz))
    allow_steady m id hz now sound (inr (b, e, earned)) = granted_of_one-le m id hz now (
        rw e (
          le-refilled b hz now (p.lit 1) (sound id b e) (i.le-lit 0 1 (omega arith) (omega arith))
            (one-le-burst hz) (inl earned)))
