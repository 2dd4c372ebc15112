-- ===== src/Warm/Encode.antt =====
-- `encode_binary` of src/warm.rs: rows in PostgreSQL's binary COPY format.
use hazshield_ingest.Prelude.{ℕ, ◌+◌, ◌-◌, ◌%◌, ◌^◌, List, [], ◌∷◌, ◌++◌}
use hazshield_ingest.Prelude.Int.{ℤ, to_word}
use hazshield_ingest.Prelude.Bytes.{be_bytes}
use hazshield_ingest.Platform.{Platform}
use hazshield_ingest.Types.{StoredReading, quality_code}

-- Microseconds from 1970 to 2000.
abbrev pub pg_epoch_micros : ℕ
pg_epoch_micros = 946684800000000

-- `b"PGCOPY\n\xff\r\n\0"`
abbrev pub magic : List ℕ
magic = 80 ∷ 71 ∷ 67 ∷ 79 ∷ 80 ∷ 89 ∷ 10 ∷ 255 ∷ 13 ∷ 10 ∷ 0 ∷ []

-- `timestamp_micros() - PG_EPOCH_MICROS` as the bit pattern of an i64, whose difference wraps.
unfoldable pub micros_word : ℤ → ℕ
micros_word t = (to_word (2 ^ 64) t + 2 ^ 64 - pg_epoch_micros) % 2 ^ 64

module _ {p : Platform} where
  -- One row: the number of fields, then for each its length and its bytes.
  unfoldable pub encode_row : StoredReading p → List ℕ
  encode_row r =
      be_bytes 2 4
      ++ (be_bytes 4 8
          ++ (be_bytes 8 (micros_word (p.timestamp_micros r.ts))
              ++ (be_bytes 4 16
                  ++ (be_bytes 16 r.sensor_id
                      ++ (be_bytes 4 4
                          ++ (be_bytes 4 (p.to_bits r.value)
                              ++ (be_bytes 4 2 ++ be_bytes 2 (quality_code r.quality))))))))

  unfoldable pub encode_rows : List (StoredReading p) → List ℕ
  encode_rows [] = []
  encode_rows (r ∷ rows) = encode_row r ++ encode_rows rows

  -- Header, rows, and the trailer `-1i16`.
  unfoldable pub encode_binary : List (StoredReading p) → List ℕ
  encode_binary rows =
      magic ++ (be_bytes 4 0 ++ (be_bytes 4 0 ++ (encode_rows rows ++ be_bytes 2 (2 ^ 16 - 1))))
