-- ===== src/Limiter/Flood.antt =====
-- The flood shield of src/limiter.rs: how much of a burst of calls gets through.
use hazshield_ingest.Prelude.{
  ℕ, zero, suc, ◌+◌, ◌-◌, ◌^◌, ◌≤◌, ◌≡◌, refl, Bool, true, false, some, arith, Bool-cases, List, [],
  ◌∷◌, inl, inr, sym, subst,
}
use hazshield_ingest.Platform.{Platform, Ieee}
use hazshield_ingest.Types.{Uuid}
use hazshield_ingest.Limiter.{Bucket, rate, burst, refilled, spend, allow, run}
use hazshield_ingest.Limiter.Buckets.{BucketMap}
use hazshield_ingest.Limiter.Tokens.{
  IsSound, gain, zero-le-or_insert, zero-le-refilled, refilled-le-burst, zero-le-rate,
}

abbrev pub granted : List (Uuid × Bool) → ℕ
granted [] = 0
granted ((id, true) ∷ rest) = suc (granted rest)
granted ((id, false) ∷ rest) = granted rest

module _ (p : Platform) where
  -- `k` calls for one sensor at one instant
  abbrev pub flood : Uuid → p.F32 → ℕ → ℕ → List (Uuid × p.F32 × ℕ)
  flood id hz now zero = []
  flood id hz now (suc k) = (id, hz, now) ∷ flood id hz now k

module _ (p : Platform) (i : Ieee p) (s : BucketMap (Bucket p)) where
  -- What one call leaves, and that it pays for its answer: `cost` tokens less, of `n`.
  record Paid (n : ℕ) (now : ℕ) (out : Bool × Bucket p) : Type 0 where
    left : ℕ
    nonneg : p.le (p.lit 0) out.1.tokens ≡ true
    within : p.le out.1.tokens (p.lit left) ≡ true
    last : out.1.last ≡ now
    answer : (out.0 ≡ true) → suc left ≤ n
    bound : left ≤ n

  spend-Paid :
      (t : p.F64) (n now : ℕ)
      → n ≤ 2 ^ 53
      → p.le (p.lit 0) t ≡ true
      → p.le t (p.lit n) ≡ true
      → Paid n now (spend p t now)
  unfolding spend
  spend-Paid t zero now hn h k = elim (Bool-cases (p.le (p.lit 1) t)) [
    | inl e ↦
        absurd (ground (arith, i.le_trans _ _ _ e k, i.lit-lt 0 1 (omega arith) (omega arith)))
    | inr e ↦ rw e (record {
      left = 0;
      nonneg = h;
      within = k;
      last = refl;
      answer = λ q. absurd (ground arith);
      bound = omega arith;
    })
  ]
  spend-Paid t (suc n) now hn h k = elim (Bool-cases (p.le (p.lit 1) t)) [
    | inl e ↦ rw e (record {
      left = n;
      nonneg = i.sub_one_nonneg t e;
      within = i.sub_one-le_lit t n (omega arith) e k;
      last = refl;
      answer = λ q. omega arith;
      bound = omega arith;
    })
    | inr e ↦ rw e (record {
      left = suc n;
      nonneg = h;
      within = k;
      last = refl;
      answer = λ q. absurd (ground arith);
      bound = omega arith;
    })
  ]

  granted_cons :
      (id : Uuid) (g : Bool) (rest : List (Uuid × Bool)) (left n : ℕ)
      → (g ≡ true → suc left ≤ n)
      → left ≤ n
      → granted rest ≤ left
      → granted ((id, g) ∷ rest) ≤ n
  granted_cons id true rest left n a b h = omega (arith, a refl)
  granted_cons id false rest left n a b h = omega arith

  module _ (id : Uuid) (hz : p.F32) (now : ℕ)
      (still : p.le (p.mul (p.as_secs 0) (rate p hz)) (p.lit 0) ≡ true) where
    -- A refill at the instant of the last call adds nothing.
    gain_still : (b : Bucket p) → b.last ≡ now → p.le (gain p i b hz now) (p.lit 0) ≡ true
    gain_still b e =
        let gap : now - b.last ≡ 0 = omega arith in
        subst (λ t. p.le (p.mul (p.as_secs t) (rate p hz)) (p.lit 0) ≡ true) (sym gap) still

    gain_nonneg : (b : Bucket p) → b.last ≡ now → p.le (p.lit 0) (gain p i b hz now) ≡ true
    gain_nonneg b e =
        elim (i.mul_nonneg _ _ (i.as_secs_nonneg (now - b.last)) (zero-le-rate p i hz)) [
          | inl h ↦ h
          | inr nan ↦ absurd (ground (arith, i.le_left _ _ (gain_still b e)))
        ]

    refilled_still :
        (b : Bucket p) (n : ℕ)
        → n ≤ 2 ^ 53
        → b.last ≡ now
        → p.le (p.lit 0) b.tokens ≡ true
        → p.le b.tokens (p.lit n) ≡ true
        → p.le (refilled p b hz now) (p.lit n) ≡ true
    refilled_still b n hn e h k = i.le_trans _ _ _ (i.fmin-le_left _ _ (i.le_left _ _ sum)) sum
      where
        sum : p.le (p.add b.tokens (gain p i b hz now)) (p.lit n) ≡ true
        sum =
            let whole : n + 0 ≡ n = omega arith in
            rw whole at (i.add-le_lit _ _ n 0 k (gain_still b e) h (gain_nonneg b e) (omega arith))

    spent :
        (k n : ℕ) (m : s.Map) (t : p.F64)
        → ((left : ℕ) (b : Bucket p)
            → left ≤ n
            → b.last ≡ now
            → p.le (p.lit 0) b.tokens ≡ true
            → p.le b.tokens (p.lit left) ≡ true
            → granted (run p s (s.put m id b) (flood p id hz now k)) ≤ left)
        → n ≤ 2 ^ 53
        → p.le (p.lit 0) t ≡ true
        → p.le t (p.lit n) ≡ true
        → granted
            ((id, (spend p t now).0) ∷ run p s (s.put m id (spend p t now).1) (flood p id hz now k))
          ≤ n
    spent k n m t rest hn h w =
        granted_cons id _ _ paid.left n paid.answer paid.bound
          (rest paid.left _ paid.bound paid.last paid.nonneg paid.within)
      where
        paid : Paid n now (spend p t now)
        paid = spend-Paid t n now hn h w

    flood_from :
        (k n : ℕ) (m : s.Map) (b : Bucket p)
        → s.get m id ≡ some b
        → n ≤ 2 ^ 53
        → b.last ≡ now
        → p.le (p.lit 0) b.tokens ≡ true
        → p.le b.tokens (p.lit n) ≡ true
        → granted (run p s m (flood p id hz now k)) ≤ n
    unfolding run allow
    flood_from zero n m b e hn l h w = omega arith
    flood_from (suc k) n m b e hn l h w = rw e (
        spent k n m _
          (λ left b' hl l' h' w'.
            flood_from k left (s.put m id b') b' (s.get-put_self m id b') (omega arith) l' h' w')
          hn (zero-le-refilled p i b hz now h) (refilled_still b n hn l h w))

    -- However many readings of one sensor arrive at one instant, at most as many are within budget
    -- as the cap has whole tokens: `n`, if the cap is at most `n`. It holds from every sound state,
    -- for a rate that a zero interval multiplies to zero (a finite one).
    pub flood_bounded :
        (k n : ℕ) (m : s.Map)
        → IsSound p i s m
        → n ≤ 2 ^ 53
        → p.le (burst p hz) (p.lit n) ≡ true
        → granted (run p s m (flood p id hz now k)) ≤ n
    unfolding run allow
    flood_bounded zero n m sound hn cap = omega arith
    flood_bounded (suc k) n m sound hn cap =
        spent k n m _
          (λ left b' hl l' h' w'.
            flood_from k left (s.put m id b') b' (s.get-put_self m id b') (omega arith) l' h' w')
          hn (zero-le-refilled p i _ hz now (zero-le-or_insert p i s m id hz now sound))
          (i.le_trans _ _ _ (refilled-le-burst p i _ hz now) cap)
