-- ===== src/Platform/Sample.antt =====
-- A small instance of the numeric interface, on which the theorems are run: floats that hold NaN,
-- infinity or a whole number of quarters, and timestamps in microseconds.
use hazshield_ingest.Prelude.{
  ℕ, zero, suc, ◌+◌, ◌-◌, ◌*◌, ◌/◌, ◌%◌, ◌^◌, ◌≤◌, ◌<◌, ◌≡◌, ◌⊎◌, Bool, true, false, arith, leb,
  if◌then◌else◌,
}
use hazshield_ingest.Prelude.Int.{ℤ}
use hazshield_ingest.Platform.Interface.{Platform, Ieee}

pub data Fl : Type 0 where
  nan inf : Fl
  quarters : ℕ → Fl

abbrev fl_le : Fl → Fl → Bool
fl_le nan y = false
fl_le inf nan = false
fl_le inf inf = true
fl_le inf (quarters n) = false
fl_le (quarters m) nan = false
fl_le (quarters m) inf = true
fl_le (quarters m) (quarters n) = leb m n

abbrev fl_add : Fl → Fl → Fl
fl_add nan y = nan
fl_add inf nan = nan
fl_add inf inf = inf
fl_add inf (quarters n) = inf
fl_add (quarters m) nan = nan
fl_add (quarters m) inf = inf
fl_add (quarters m) (quarters n) = quarters (m + n)

abbrev fl_mul : Fl → Fl → Fl
fl_mul nan y = nan
fl_mul inf nan = nan
fl_mul inf inf = inf
fl_mul inf (quarters zero) = nan
fl_mul inf (quarters (suc n)) = inf
fl_mul (quarters m) nan = nan
fl_mul (quarters zero) inf = nan
fl_mul (quarters (suc m)) inf = inf
fl_mul (quarters m) (quarters n) = quarters (m * n / 4)

-- Differences below zero do not occur on the runs below; they stop at zero here.
abbrev fl_sub : Fl → Fl → Fl
fl_sub nan y = nan
fl_sub inf nan = nan
fl_sub inf inf = nan
fl_sub inf (quarters n) = inf
fl_sub (quarters m) nan = nan
fl_sub (quarters m) inf = nan
fl_sub (quarters m) (quarters n) = quarters (m - n)

abbrev fl_min : Fl → Fl → Fl
fl_min nan y = y
fl_min inf nan = inf
fl_min inf inf = inf
fl_min inf (quarters n) = quarters n
fl_min (quarters m) nan = quarters m
fl_min (quarters m) inf = quarters m
fl_min (quarters m) (quarters n) = if leb m n then quarters m else quarters n

abbrev fl_max : Fl → Fl → Fl
fl_max nan y = y
fl_max inf y = inf
fl_max (quarters m) nan = quarters m
fl_max (quarters m) inf = inf
fl_max (quarters m) (quarters n) = if leb m n then quarters n else quarters m

abbrev fl_is_finite : Fl → Bool
fl_is_finite (quarters n) = true
fl_is_finite _ = false

-- The bit patterns of single precision for NaN and infinity, and the count of quarters below them.
abbrev fl_bits : Fl → ℕ
fl_bits nan = 0x7fc00000
fl_bits inf = 0x7f800000
fl_bits (quarters n) = n % 0x7f800000

abbrev pub sample : Platform
sample = record {
  F32 = Fl;
  F64 = Fl;
  DateTime = ℤ;
  widen = λ x. x;
  is_finite = fl_is_finite;
  to_bits = fl_bits;
  le = fl_le;
  lit = λ n. quarters (4 * n);
  add = fl_add;
  sub = fl_sub;
  mul = fl_mul;
  fmin = fl_min;
  fmax = fl_max;
  as_secs = λ n. quarters (n / 250000000);
  timestamp_micros = λ t. t;
}

fl_le_trans : (x y z : Fl) → fl_le x y ≡ true → fl_le y z ≡ true → fl_le x z ≡ true
fl_le_trans x y z h1 h2 = ground arith

fl_le_left : (x y : Fl) → fl_le x y ≡ true → fl_le x x ≡ true
fl_le_left x y h1 = ground arith

fl_le_right : (x y : Fl) → fl_le x y ≡ true → fl_le y y ≡ true
fl_le_right x y h1 = ground arith

fl_le_total :
    (x y : Fl) → fl_le x x ≡ true → fl_le y y ≡ true → fl_le x y ≡ false → fl_le y x ≡ true
fl_le_total x y h1 h2 h3 = ground arith

fl_le-fl_max : (x c : Fl) → fl_le c c ≡ true → fl_le c (fl_max x c) ≡ true
fl_le-fl_max x y h1 = ground arith

fl_min-fl_le : (x c : Fl) → fl_le c c ≡ true → fl_le (fl_min x c) c ≡ true
fl_min-fl_le x y h1 = ground arith

fl_le-fl_min : (a x c : Fl) → fl_le a x ≡ true → fl_le a c ≡ true → fl_le a (fl_min x c) ≡ true
fl_le-fl_min x y z h1 h2 = ground arith

fl_min_nan : (x c : Fl) → fl_le x x ≡ false → fl_min x c ≡ c
fl_min_nan x y h1 = ground arith

fl_min-fl_le_left : (x c : Fl) → fl_le x x ≡ true → fl_le (fl_min x c) x ≡ true
fl_min-fl_le_left x y h1 = ground arith

fl_le-fl_add :
    (t c d : Fl)
    → fl_le (quarters 0) t ≡ true
    → fl_le (quarters 0) c ≡ true
    → fl_le c d ≡ true
    → fl_le c (fl_add t d) ≡ true
fl_le-fl_add x y z h1 h2 h3 = ground arith

fl_le-fl_add_left :
    (c t d : Fl)
    → fl_le (quarters 0) c ≡ true
    → fl_le c t ≡ true
    → fl_le (quarters 0) d ≡ true
    → fl_le c (fl_add t d) ≡ true
fl_le-fl_add_left x y z h1 h2 h3 = ground arith

fl_add-fl_le :
    (x y : Fl) (m n : ℕ)
    → fl_le x (quarters (4 * m)) ≡ true
    → fl_le y (quarters (4 * n)) ≡ true
    → fl_le (quarters 0) x ≡ true
    → fl_le (quarters 0) y ≡ true
    → m + n ≤ 2 ^ 53
    → fl_le (fl_add x y) (quarters (4 * (m + n))) ≡ true
fl_add-fl_le x y m n h1 h2 h3 h4 h5 = ground arith

fl_add_nan : (t d : Fl) → fl_le d d ≡ false → fl_le (fl_add t d) (fl_add t d) ≡ false
fl_add_nan x y h1 = ground arith

fl_sub_nonneg :
    (x : Fl) → fl_le (quarters 4) x ≡ true → fl_le (quarters 0) (fl_sub x (quarters 4)) ≡ true
fl_sub_nonneg x h1 = ground arith

fl_sub-fl_le : (x : Fl) → fl_le (quarters 4) x ≡ true → fl_le (fl_sub x (quarters 4)) x ≡ true
fl_sub-fl_le x h1 = ground arith

fl_sub-fl_le_lit :
    (x : Fl) (n : ℕ)
    → n ≤ 2 ^ 53
    → fl_le (quarters 4) x ≡ true
    → fl_le x (quarters (4 * suc n)) ≡ true
    → fl_le (fl_sub x (quarters 4)) (quarters (4 * n)) ≡ true
fl_sub-fl_le_lit x n h1 h2 h3 = ground arith

fl_mul_nonneg :
    (x y : Fl)
    → fl_le (quarters 0) x ≡ true
    → fl_le (quarters 0) y ≡ true
    → (fl_le (quarters 0) (fl_mul x y) ≡ true) ⊎ (fl_le (fl_mul x y) (fl_mul x y) ≡ false)
fl_mul_nonneg x y h1 h2 = ground arith

fl_le-quarters : (m n : ℕ) → m ≤ n → fl_le (quarters (4 * m)) (quarters (4 * n)) ≡ true
fl_le-quarters m n h = ground arith

fl_lt-quarters : (m n : ℕ) → m < n → fl_le (quarters (4 * n)) (quarters (4 * m)) ≡ false
fl_lt-quarters m n h = ground arith

fl_as_secs_nonneg : (n : ℕ) → fl_le (quarters (4 * 0)) (quarters (n / 250000000)) ≡ true
fl_as_secs_nonneg n = ground arith

pub sample-Ieee : Ieee sample
sample-Ieee = record {
  le_trans = fl_le_trans;
  le_left = fl_le_left;
  le_right = fl_le_right;
  le_total = fl_le_total;
  le-lit = λ m n h _. fl_le-quarters m n h;
  lit-lt = λ m n h _. fl_lt-quarters m n h;
  le-fmax = fl_le-fl_max;
  fmin-le = fl_min-fl_le;
  le-fmin = fl_le-fl_min;
  fmin_nan = fl_min_nan;
  fmin-le_left = fl_min-fl_le_left;
  le-add = fl_le-fl_add;
  le-add_left = fl_le-fl_add_left;
  add-le_lit = fl_add-fl_le;
  add_nan = fl_add_nan;
  sub_one_nonneg = fl_sub_nonneg;
  sub_one-le = fl_sub-fl_le;
  sub_one-le_lit = fl_sub-fl_le_lit;
  mul_nonneg = fl_mul_nonneg;
  as_secs_nonneg = λ n. fl_as_secs_nonneg n;
}
