-- ===== src/Prelude/Bytes.antt =====
-- Words as big-endian bytes: `to_be_bytes` of the integers and its inverse.
use Prim.Native.Nat.{ℕ, zero, suc, ◌+◌, ◌*◌, ◌/◌, ◌%◌, ◌<◌, ◌^◌}
use native.Mathlib.Nat.{pow-suc}
use mathlib.Core.Path.{◌≡◌, refl}
use mathlib.Core.List.{List, [], ◌∷◌, ◌++◌, append_assoc}
use mathlib.Core.Option.{Option, none, some}
use native.Mathlib.Omega.{arith}
use hazshield_ingest.Prelude.Lists.{length, length-append}

-- The last `n` bytes of a word, the most significant first.
unfoldable pub be_bytes : ℕ → ℕ → List ℕ
be_bytes zero w = []
be_bytes (suc n) w = be_bytes n (w / 256) ++ (w % 256 ∷ [])

-- Reading `n` bytes onto an accumulator, with what follows; `none` when the input is too short.
unfoldable pub read_be : ℕ → ℕ → List ℕ → Option (ℕ × List ℕ)
read_be zero acc bs = some (acc, bs)
read_be (suc n) acc [] = none
read_be (suc n) acc (b ∷ bs) = read_be n (acc * 256 + b) bs

pub length-be_bytes : (n w : ℕ) → length (be_bytes n w) ≡ n
unfolding be_bytes
length-be_bytes zero w = refl
length-be_bytes (suc n) w =
    omega (arith, length-append (be_bytes n (w / 256)) (w % 256 ∷ []), length-be_bytes n (w / 256))

abbrev read_more : Option (ℕ × List ℕ) → Option (ℕ × List ℕ)
read_more none = none
read_more (some (a, [])) = none
read_more (some (a, b ∷ bs)) = some (a * 256 + b, bs)

read_be-suc : (n acc : ℕ) (bs : List ℕ) → read_be (suc n) acc bs ≡ read_more (read_be n acc bs)
unfolding read_be
read_be-suc zero acc [] = refl
read_be-suc zero acc (b ∷ bs) = refl
read_be-suc (suc n) acc [] = refl
read_be-suc (suc n) acc (b ∷ bs) = read_be-suc n (acc * 256 + b) bs

-- Bytes written are read back whatever follows them; a word of `n` bytes is read back as it was.
pub read_be-be_bytes :
    (n w : ℕ) (rest : List ℕ)
    → (v : ℕ) × (read_be n 0 (be_bytes n w ++ rest) ≡ some (v, rest)) × (w < 256 ^ n → v ≡ w)
unfolding be_bytes
read_be-be_bytes zero w rest = unfold read_be in (0, refl, λ h. omega arith)
read_be-be_bytes (suc n) w rest =
    let (v, back, same) = read_be-be_bytes n (w / 256) (w % 256 ∷ rest) in
    (
      v * 256 + w % 256,
      rw (append_assoc, read_be-suc, back) refl,
      λ h. omega (arith, same (omega (arith, pow-suc 256 n))),
    )
