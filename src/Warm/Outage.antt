-- ===== src/Warm/Outage.antt =====
-- The writer of src/warm.rs while the database is down: who retries, and how a success heals it.
use hazshield_ingest.Prelude.{
  ℕ, ◌+◌, ◌-◌, ◌*◌, ◌%◌, ◌^◌, ◌≤◌, ◌<◌, ◌≡◌, ◌≢◌, refl, ◌∙◌, sym, ap, inl, inr, true, none, some,
  List, [], ◌∷◌, length, length-append, length-drop, is_empty, arith, Bool-cases, ltb, min,
}
use hazshield_ingest.Platform.{Platform}
use hazshield_ingest.Types.{StoredReading}
use hazshield_ingest.Warm.Database.{Postgres}
use hazshield_ingest.Warm.{
  Event, received, tick, Writer, max_buffered, clamp, settle_flush, flush, push, flush_if_full,
  shed, step, run, copy_rows,
}

module _ {p : Platform} where
  -- A stretch in which the channel always has a row, so that the biased `select!` never comes to the
  -- timer.
  abbrev pub busy : List (StoredReading p) → List (Event p)
  busy [] = []
  busy (r ∷ rs) = received r ∷ busy rs

-- The wait before the next retry.
abbrev next_backoff : ℕ → ℕ
next_backoff b = clamp 250 5000 (b * 2)

module _ {p : Platform} {g : Postgres} where
  -- What stays as it is.
  abbrev SameLink : Writer p g → Writer p g → Type 0
  SameLink w w' =
      (w'.db ≡ w.db)
      × (w'.backoff_ms ≡ w.backoff_ms)
      × (w'.metrics.warm_flushed_total ≡ w.metrics.warm_flushed_total)

  flush_if_full_down : (w : Writer p g) → w.backoff_ms ≢ 0 → flush_if_full g w ≡ w
  unfolding flush_if_full
  flush_if_full_down w h = ground (arith, h)

  shed-SameLink : (w : Writer p g) → SameLink w (shed g w)
  unfolding shed
  shed-SameLink w = ground arith

  length-shed : (w : Writer p g) → length (shed g w).buf ≡ min max_buffered (length w.buf)
  unfolding shed
  length-shed w = elim (Bool-cases (ltb max_buffered (length w.buf))) [
    | inl over ↦ rw over (ground (arith, over, length-drop (length w.buf - max_buffered) w.buf))
    | inr within ↦ rw within (ground (arith, within))
  ]

  received_down :
      (w : Writer p g) (r : StoredReading p)
      → w.backoff_ms ≢ 0
      → SameLink w (step g w (received r))
        × (length (step g w (received r)).buf ≡ min max_buffered (length w.buf + 1))
  unfolding step
  received_down w r h = rw (flush_if_full_down (push g w r) (unfold push in h)) (
    unfold push in shed-SameLink (push g w r),
    length-shed (push g w r) ∙ ap (min max_buffered) (unfold push in length-append w.buf (r ∷ [])),
  )

  -- Once a flush has failed, no flush is tried as long as the channel always has a row: over any such
  -- stretch the database is not called and the backoff stays, while the buffer fills up to its cap.
  pub busy_outage :
      (w : Writer p g) (rs : List (StoredReading p))
      → w.backoff_ms ≢ 0
      → length w.buf ≤ max_buffered
      → ((run g w (busy rs)).db ≡ w.db)
        × ((run g w (busy rs)).backoff_ms ≡ w.backoff_ms)
        × ((run g w (busy rs)).metrics.warm_flushed_total ≡ w.metrics.warm_flushed_total)
        × (length (run g w (busy rs)).buf ≡ min max_buffered (length w.buf + length rs))
  unfolding run
  busy_outage w [] h limit = (refl, refl, refl, omega arith)
  busy_outage w (r ∷ rs) h limit =
      let ((db, back, flushed), len) = received_down w r h in
      let rest =
        busy_outage (step g w (received r)) rs (λ z. h (sym back ∙ z)) (omega (arith, len)) in
      (rest.0 ∙ db, rest.1 ∙ back, rest.2 ∙ flushed, omega (arith, len, rest.3))

  pub flush_settles :
      (w : Writer p g) → 0 < length w.buf → flush g w ≡ settle_flush g w (copy_rows g w.db w.buf)
  unfolding flush
  flush_settles w h = elim (Bool-cases (is_empty w.buf)) [
    | inl e ↦ absurd (nonempty w.buf h e)
    | inr e ↦ rw e refl
  ]
    where
      nonempty : (xs : List (StoredReading p)) → 0 < length xs → is_empty xs ≡ true → ⊥
      nonempty [] k e = omega arith
      nonempty (x ∷ xs) k e = cc

  -- A tick with rows buffered tries one COPY of the whole buffer. Success empties the buffer and
  -- resets the backoff, however long the outage was; failure keeps every row, doubles the backoff
  -- within 250 and 5000 ms, and counts one failure.
  tick_retries :
      (w : Writer p g)
      → 0 < length w.buf
      → w.backoff_ms ≤ 5000
      → ((n : ℕ)
          → (copy_rows g w.db w.buf).0 ≡ some n
          → ((step g w tick).buf ≡ [])
            × ((step g w tick).backoff_ms ≡ 0)
            × ((step g w tick).metrics.warm_flushed_total ≡ w.metrics.warm_flushed_total + n))
        × ((copy_rows g w.db w.buf).0 ≡ none
            → ((step g w tick).buf ≡ w.buf)
              × ((step g w tick).backoff_ms ≡ next_backoff w.backoff_ms)
              × ((step g w tick).metrics.warm_flush_failures_total
                  ≡ w.metrics.warm_flush_failures_total + 1))
  unfolding step settle_flush
  tick_retries w h limit =
      rw (flush_settles w h) (λ n e. rw e (refl, refl, refl), λ e. rw e (refl, same, refl))
    where
      same : clamp 250 5000 (w.backoff_ms * 2 % 2 ^ 64) ≡ next_backoff w.backoff_ms
      same =
          let fits : w.backoff_ms * 2 % 2 ^ 64 ≡ w.backoff_ms * 2 = omega arith in
          ap (clamp 250 5000) fits
