-- ===== src/Prelude/Int.antt =====
-- Signed integers over the native numbers, under the library's names (its ℤ stands on the unary ℕ).
use Prim.Native.Nat.{ℕ, suc, ◌+◌, ◌-◌, ◌≤◌, ◌<◌}
use mathlib.Core.Path.{◌≡◌}
use native.Mathlib.Omega.{arith}
use hazshield_ingest.Prelude.Tests.{ltb, leb, if◌then◌else◌}

-- `negsuc n` is -(n + 1).
pub data ℤ : Type 0 where
  pos : ℕ → ℤ
  negsuc : ℕ → ℤ

abbrev pub pos_part : ℤ → ℕ
pos_part (pos n) = n
pos_part (negsuc n) = 0

abbrev pub neg_part : ℤ → ℕ
neg_part (pos n) = 0
neg_part (negsuc n) = suc n

abbrev pub sub_ℕ : ℕ → ℕ → ℤ
sub_ℕ a b = if leb b a then pos (a - b) else negsuc (b - a - 1)

infixl 65 ◌-ℤ◌ ◌+ℤ◌
infix 50 ◌≤ℤ◌
abbrev pub ◌-ℤ◌ : ℤ → ℤ → ℤ
a -ℤ b = sub_ℕ (pos_part a + neg_part b) (neg_part a + pos_part b)

abbrev pub ◌+ℤ◌ : ℤ → ℤ → ℤ
a +ℤ b = sub_ℕ (pos_part a + pos_part b) (neg_part a + neg_part b)

abbrev pub ◌≤ℤ◌ : ℤ → ℤ → Type 0
a ≤ℤ b = pos_part a + neg_part b ≤ pos_part b + neg_part a

-- The two's complement bit pattern of an integer in a word of `m` values, and back.
abbrev pub to_word : ℕ → ℤ → ℕ
to_word m (pos n) = n
to_word m (negsuc n) = m - suc n

abbrev pub of_word : ℕ → ℕ → ℤ
of_word half w = if ltb w half then pos w else negsuc (half + half - suc w)

-- A signed word that is in range survives the trip through its bit pattern.
pub of_word-to_word :
    (half : ℕ) (a : ℤ)
    → pos_part a < half
    → neg_part a ≤ half
    → of_word half (to_word (half + half) a) ≡ a
of_word-to_word half (pos n) h k = ground arith
of_word-to_word half (negsuc n) h k = ground arith
