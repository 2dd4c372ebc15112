-- ===== src/Warm/RoundTrip.antt =====
-- What src/warm.rs encodes, PostgreSQL reads back: all rows, in order, each with its own values.
use hazshield_ingest.Prelude.{
  ℕ, zero, suc, ◌+◌, ◌-◌, ◌*◌, ◌^◌, ◌≤◌, ◌<◌, ◌≡◌, refl, ap₂, true, some, List, [], ◌∷◌, ◌++◌,
  length, length-append, append_assoc, map, arith, ◌==◌,
}
use hazshield_ingest.Prelude.Int.{ℤ, pos, negsuc, pos_part, neg_part, ◌-ℤ◌, of_word}
use hazshield_ingest.Prelude.Bytes.{be_bytes, read_be, read_be-be_bytes, length-be_bytes}
use hazshield_ingest.Platform.{Platform}
use hazshield_ingest.Types.{StoredReading, Quality, good, suspect, degraded_sampled, quality_code}
use hazshield_ingest.Warm.Encode.{
  pg_epoch_micros, micros_word, encode_row, encode_rows, encode_binary,
}
use hazshield_ingest.Warm.Decode.{Tuple, read_field, read_fields, read_rows, strip, decode}

-- A word below its bound is read back; other words are read back as some word.
read_word :
    (n w k : ℕ) (rest : List ℕ)
    → k ≡ 256 ^ n
    → (v : ℕ) × (read_be n 0 (be_bytes n w ++ rest) ≡ some (v, rest)) × (w < k → v ≡ w)
read_word n w k rest e =
    let (v, back, same) = read_be-be_bytes n w rest in (v, back, λ h. same (omega arith))

read_field-be_bytes :
    (n w k : ℕ) (rest : List ℕ)
    → n < 2 ^ 32
    → k ≡ 256 ^ n
    → (v : ℕ) × (read_field n (be_bytes 4 n ++ (be_bytes n w ++ rest)) ≡ some (v, rest))
      × (w < k → v ≡ w)
unfolding read_field
read_field-be_bytes n w k rest h e =
    let (m, head, exact) = read_word 4 n (2 ^ 32) (be_bytes n w ++ rest) refl in
    let (v, back, same) = read_word n w k rest e in
    let here : (m == n) ≡ true = ground (arith, exact h) in (v, rw (head, here) back, same)

micros_word-lt : (t : ℤ) → micros_word t < 2 ^ 64
unfolding micros_word
micros_word-lt t = omega arith

-- Within the range of chrono's timestamps the difference does not wrap.
of_word-micros_word :
    (t : ℤ)
    → pos_part t < 2 ^ 63
    → neg_part t + pg_epoch_micros ≤ 2 ^ 63
    → of_word (2 ^ 63) (micros_word t) ≡ t -ℤ pos pg_epoch_micros
unfolding micros_word
of_word-micros_word (pos n) h k = ground arith
of_word-micros_word (negsuc n) h k = ground arith

quality_code-lt : (q : Quality) → quality_code q < 2 ^ 16
quality_code-lt good = omega arith
quality_code-lt suspect = omega arith
quality_code-lt degraded_sampled = omega arith

module _ {p : Platform} where
  -- A row whose identifier, float and time have the widths of their types.
  pub record IsWire (r : StoredReading p) : Type 0 where
    pub id : r.sensor_id < 2 ^ 128
    pub bits : p.to_bits r.value < 2 ^ 32
    pub late : pos_part (p.timestamp_micros r.ts) < 2 ^ 63
    pub early : neg_part (p.timestamp_micros r.ts) + pg_epoch_micros ≤ 2 ^ 63

  abbrev pub AllWire : List (StoredReading p) → Type 0
  AllWire [] = Unit {0}
  AllWire (r ∷ rows) = IsWire r × AllWire rows

  -- The row as the database holds it.
  abbrev pub tuple_of : StoredReading p → Tuple
  tuple_of r = record {
    time = p.timestamp_micros r.ts -ℤ pos pg_epoch_micros;
    sensor_id = r.sensor_id;
    value = p.to_bits r.value;
    quality = quality_code r.quality;
  }

  -- The bytes of a row after its field count, before `rest`.
  abbrev fields : StoredReading p → List ℕ → List ℕ
  fields r rest =
      be_bytes 4 8
      ++ (be_bytes 8 (micros_word (p.timestamp_micros r.ts))
          ++ (be_bytes 4 16
              ++ (be_bytes 16 r.sensor_id
                  ++ (be_bytes 4 4
                      ++ (be_bytes 4 (p.to_bits r.value)
                          ++ (be_bytes 4 2 ++ (be_bytes 2 (quality_code r.quality) ++ rest)))))))

  encode_row-append :
      (r : StoredReading p) (rest : List ℕ) → encode_row r ++ rest ≡ be_bytes 2 4 ++ fields r rest
  unfolding encode_row
  encode_row-append r rest = simp append_assoc

  read_fields-fields :
      (r : StoredReading p) (rest : List ℕ)
      → (t : Tuple) × (read_fields (fields r rest) ≡ some (t, rest)) × (IsWire r → t ≡ tuple_of r)
  unfolding read_fields
  read_fields-fields r rest =
      let (q, eq, sq) =
        read_field-be_bytes 2 (quality_code r.quality) (2 ^ 16) rest (omega arith) refl in
      let after_value = be_bytes 4 2 ++ (be_bytes 2 (quality_code r.quality) ++ rest) in
      let after_id = be_bytes 4 4 ++ (be_bytes 4 (p.to_bits r.value) ++ after_value) in
      let after_time = be_bytes 4 16 ++ (be_bytes 16 r.sensor_id ++ after_id) in
      let (v, ev, sv) =
        read_field-be_bytes 4 (p.to_bits r.value) (2 ^ 32) after_value (omega arith) refl in
      let (u, eu, su) = read_field-be_bytes 16 r.sensor_id (2 ^ 128) after_id (omega arith) refl in
      let (t, et, st) =
        read_field-be_bytes 8 (micros_word (p.timestamp_micros r.ts)) (2 ^ 64) after_time
          (omega arith) refl in
      (
        record { time = of_word (2 ^ 63) t; sensor_id = u; value = v; quality = q },
        rw (et, eu, ev, eq) refl,
        λ h. ground (
          arith,
          sq (quality_code-lt r.quality),
          sv h.bits,
          su h.id,
          st (micros_word-lt (p.timestamp_micros r.ts)),
          of_word-micros_word (p.timestamp_micros r.ts) h.late h.early,
        ),
      )

  -- Reading stops at the trailer; a row takes one unit of fuel.
  read_rows-encode_rows :
      (rows : List (StoredReading p)) (fuel : ℕ)
      → length rows < fuel
      → (ts : List Tuple) × (read_rows fuel (encode_rows rows ++ be_bytes 2 (2 ^ 16 - 1)) ≡ some ts)
        × (length ts ≡ length rows)
        × (AllWire rows → ts ≡ map tuple_of rows)
  unfolding encode_rows read_rows
  read_rows-encode_rows rows zero h = absurd (omega arith)
  read_rows-encode_rows [] (suc fuel) h = ([], unfold be_bytes read_be in refl, refl, λ _. refl)
  read_rows-encode_rows (r ∷ rows) (suc fuel) h =
      let rest = encode_rows rows ++ be_bytes 2 (2 ^ 16 - 1) in
      let (n, en, sn) = read_word 2 4 (2 ^ 16) (fields r rest) refl in
      let (t, et, st) = read_fields-fields r rest in
      let (ts, ets, len, sts) = read_rows-encode_rows rows fuel (omega arith) in
      let four : n ≡ 4 = sn (omega arith) in
      (
        t ∷ ts,
        rw (append_assoc, encode_row-append, en, four, et, ets) refl,
        omega (arith, len),
        λ w. ap₂ ◌∷◌ (st w.0) (sts w.1),
      )

  length-encode_row : (r : StoredReading p) → length (encode_row r) ≡ 48
  unfolding encode_row
  length-encode_row r = simp (length-append, length-be_bytes)

  length-encode_rows :
      (rows : List (StoredReading p)) → length (encode_rows rows) ≡ 48 * length rows
  unfolding encode_rows
  length-encode_rows [] = omega arith
  length-encode_rows (r ∷ rows) = omega (
    arith,
    length-append (encode_row r) (encode_rows rows),
    length-encode_row r,
    length-encode_rows rows,
  )

  length_body :
      (rows : List (StoredReading p))
      → length (encode_rows rows ++ be_bytes 2 (2 ^ 16 - 1)) ≡ 48 * length rows + 2
  length_body rows = omega (
    arith,
    length-append (encode_rows rows) (be_bytes 2 (2 ^ 16 - 1)),
    length-encode_rows rows,
    length-be_bytes 2 (2 ^ 16 - 1),
  )

  length-encode_binary :
      (rows : List (StoredReading p)) → length (encode_binary rows) ≡ 21 + 48 * length rows
  unfolding encode_binary be_bytes
  length-encode_binary rows = omega (arith, length_body rows)

  -- PostgreSQL reads every encoded buffer as a COPY of exactly as many rows, and where identifiers,
  -- floats and times have their types' widths the rows are those of the buffer, in order: no row,
  -- field or bit is lost. The payload has 48 bytes for each row and 21 around them, so the capacity
  -- that is reserved for it is enough when there is a row.
  pub decode-encode_binary :
      (rows : List (StoredReading p))
      → (ts : List Tuple) × (decode (encode_binary rows) ≡ some ts)
        × (length ts ≡ length rows)
        × (AllWire rows → ts ≡ map tuple_of rows)
        × (length (encode_binary rows) ≡ 21 + 48 * length rows)
        × (1 ≤ length rows → length (encode_binary rows) ≤ 19 + length rows * 50)
  unfolding decode encode_binary strip
  decode-encode_binary rows =
      let body = encode_rows rows ++ be_bytes 2 (2 ^ 16 - 1) in
      let (ts, ets, len, sts) =
        read_rows-encode_rows rows (length body) (omega (arith, length_body rows)) in
      (
        ts,
        unfold be_bytes read_be in ets,
        len,
        sts,
        length-encode_binary rows,
        λ h. omega (arith, length-encode_binary rows),
      )
