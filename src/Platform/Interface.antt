-- ===== src/Platform/Interface.antt =====
-- The numeric operations of the source as a record of operations, and their laws.
use hazshield_ingest.Prelude.{ℕ, suc, ◌+◌, ◌≤◌, ◌<◌, ◌^◌, ◌≡◌, ◌⊎◌, Bool, true, false}
use hazshield_ingest.Prelude.Int.{ℤ}

pub record Platform : Type 1 where
  pub F32 : Type 0
  pub F64 : Type 0
  -- `chrono::DateTime<Utc>`
  pub DateTime : Type 0
  -- `x as f64`, `x.is_finite()` and `x.to_bits()` of an f32
  pub widen : F32 → F64
  pub is_finite : F32 → Bool
  pub to_bits : F32 → ℕ
  -- `a <= b` on f64, which is also `b >= a`; false when either is NaN
  pub le : F64 → F64 → Bool
  -- an integer literal such as `5.0`
  pub lit : ℕ → F64
  pub add : F64 → F64 → F64
  pub sub : F64 → F64 → F64
  pub mul : F64 → F64 → F64
  -- `f64::min` and `f64::max`
  pub fmin : F64 → F64 → F64
  pub fmax : F64 → F64 → F64
  -- `Duration::as_secs_f64` of a duration in nanoseconds
  pub as_secs : ℕ → F64
  pub timestamp_micros : DateTime → ℤ

-- A float that is not NaN.
abbrev pub IsNumber : (p : Platform) → p.F64 → Type 0
IsNumber p x = p.le x x ≡ true

-- Facts of IEEE 754 arithmetic with rounding, and of `std::time`, that the proofs use.
pub record Ieee (p : Platform) : Type 0 where
  pub le_trans : (x y z : p.F64) → p.le x y ≡ true → p.le y z ≡ true → p.le x z ≡ true
  -- only numbers compare, and two numbers always do
  pub le_left : (x y : p.F64) → p.le x y ≡ true → IsNumber p x
  pub le_right : (x y : p.F64) → p.le x y ≡ true → IsNumber p y
  pub le_total : (x y : p.F64) → IsNumber p x → IsNumber p y → p.le x y ≡ false → p.le y x ≡ true
  -- literals below 2 ^ 53 are exact
  pub le-lit : (m n : ℕ) → m ≤ n → n ≤ 2 ^ 53 → p.le (p.lit m) (p.lit n) ≡ true
  pub lit-lt : (m n : ℕ) → m < n → n ≤ 2 ^ 53 → p.le (p.lit n) (p.lit m) ≡ false
  -- `max` with a number is at least that number, `min` at most; a NaN on the left is passed over
  pub le-fmax : (x c : p.F64) → IsNumber p c → p.le c (p.fmax x c) ≡ true
  pub fmin-le : (x c : p.F64) → IsNumber p c → p.le (p.fmin x c) c ≡ true
  pub le-fmin : (a x c : p.F64) → p.le a x ≡ true → p.le a c ≡ true → p.le a (p.fmin x c) ≡ true
  pub fmin_nan : (x c : p.F64) → p.le x x ≡ false → p.fmin x c ≡ c
  pub fmin-le_left : (x c : p.F64) → IsNumber p x → p.le (p.fmin x c) x ≡ true
  -- rounding is monotone, so a sum with a term that is not negative is at least the other term
  pub le-add :
      (t c d : p.F64)
      → p.le (p.lit 0) t ≡ true
      → p.le (p.lit 0) c ≡ true
      → p.le c d ≡ true
      → p.le c (p.add t d) ≡ true
  pub le-add_left :
      (c t d : p.F64)
      → p.le (p.lit 0) c ≡ true
      → p.le c t ≡ true
      → p.le (p.lit 0) d ≡ true
      → p.le c (p.add t d) ≡ true
  -- rounding is monotone, and integers up to 2 ^ 53 are exact
  pub add-le_lit :
      (x y : p.F64) (m n : ℕ)
      → p.le x (p.lit m) ≡ true
      → p.le y (p.lit n) ≡ true
      → p.le (p.lit 0) x ≡ true
      → p.le (p.lit 0) y ≡ true
      → m + n ≤ 2 ^ 53
      → p.le (p.add x y) (p.lit (m + n)) ≡ true
  pub add_nan : (t d : p.F64) → p.le d d ≡ false → p.le (p.add t d) (p.add t d) ≡ false
  pub sub_one_nonneg :
      (x : p.F64) → p.le (p.lit 1) x ≡ true → p.le (p.lit 0) (p.sub x (p.lit 1)) ≡ true
  pub sub_one-le : (x : p.F64) → p.le (p.lit 1) x ≡ true → p.le (p.sub x (p.lit 1)) x ≡ true
  pub sub_one-le_lit :
      (x : p.F64) (n : ℕ)
      → n ≤ 2 ^ 53
      → p.le (p.lit 1) x ≡ true
      → p.le x (p.lit (suc n)) ≡ true
      → p.le (p.sub x (p.lit 1)) (p.lit n) ≡ true
  -- a product of two numbers that are not negative is such a number, or NaN (zero times infinity)
  pub mul_nonneg :
      (x y : p.F64)
      → p.le (p.lit 0) x ≡ true
      → p.le (p.lit 0) y ≡ true
      → (p.le (p.lit 0) (p.mul x y) ≡ true) ⊎ (p.le (p.mul x y) (p.mul x y) ≡ false)
  pub as_secs_nonneg : (n : ℕ) → p.le (p.lit 0) (p.as_secs n) ≡ true
