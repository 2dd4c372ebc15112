-- ===== src/Warm/Decode.antt =====
-- PostgreSQL's side of the binary COPY format, as its documentation describes it: a reader for a
-- table of four columns (timestamptz, uuid, float4, int2).
use hazshield_ingest.Prelude.{
  ℕ, zero, suc, ◌^◌, Option, none, some, List, [], ◌∷◌, length, is_empty, ◌==◌, if◌then◌else◌,
}
use hazshield_ingest.Prelude.Int.{ℤ, of_word}
use hazshield_ingest.Prelude.Bytes.{read_be}

infixl 5 ◌>>=◌
abbrev pub ◌>>=◌ {ℓ κ} : {A : Type ℓ} {B : Type κ} → Option A → (A → Option B) → Option B
none >>= f = none
some a >>= f = f a

-- A row of the table: microseconds since 2000, and the bits of the other columns.
pub record Tuple : Type 0 where
  pub time : ℤ
  pub sensor_id : ℕ
  pub value : ℕ
  pub quality : ℕ

abbrev pub expect : ℕ → ℕ × List ℕ → Option (List ℕ)
expect n (v, rest) = if v == n then some rest else none

-- A field whose length must be `n`.
unfoldable pub read_field : ℕ → List ℕ → Option (ℕ × List ℕ)
read_field n bs = do rest ← (read_be 4 0 bs >>= expect n); read_be n 0 rest

-- The four fields that follow a row's field count.
unfoldable pub read_fields : List ℕ → Option (Tuple × List ℕ)
read_fields bs = do
  (t, b1) ← read_field 8 bs
  (u, b2) ← read_field 16 b1
  (v, b3) ← read_field 4 b2
  (q, b4) ← read_field 2 b3
  some (record { time = of_word (2 ^ 63) t; sensor_id = u; value = v; quality = q }, b4)

-- The rows up to the trailer, which must end the input. Every row takes fuel, and every row is more
-- than one byte long, so the length of the input is fuel enough.
unfoldable pub read_rows : ℕ → List ℕ → Option (List Tuple)
read_rows zero bs = none
read_rows (suc fuel) bs = read_be 2 0 bs >>= λ head.
    if head.0 == 65535
    then (if is_empty head.1 then some [] else none)
    else if head.0 == 4
    then (read_fields head.1 >>= λ row. read_rows fuel row.1 >>= λ rows. some (row.0 ∷ rows))
    else none

unfoldable pub strip : List ℕ → List ℕ → Option (List ℕ)
strip [] bs = some bs
strip (x ∷ xs) [] = none
strip (x ∷ xs) (b ∷ bs) = if x == b then strip xs bs else none

-- The signature, no flags and no header extension, then the rows.
unfoldable pub decode : List ℕ → Option (List Tuple)
decode bs = do
  signed ← strip (80 ∷ 71 ∷ 67 ∷ 79 ∷ 80 ∷ 89 ∷ 10 ∷ 255 ∷ 13 ∷ 10 ∷ 0 ∷ []) bs
  plain ← (read_be 4 0 signed >>= expect 0)
  body ← (read_be 4 0 plain >>= expect 0)
  read_rows (length body) body
