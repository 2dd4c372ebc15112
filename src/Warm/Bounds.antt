-- ===== src/Warm/Bounds.antt =====
-- The writer of src/warm.rs stays within its bounds: the buffer's cap, the batch size while the
-- database is healthy, and the limits of the backoff.
use hazshield_ingest.Prelude.{
  ℕ, ◌+◌, ◌-◌, ◌≤◌, ◌<◌, ◌≡◌, refl, ◌⊎◌, inl, inr, Option, none, some, List, [], ◌∷◌, length,
  length-append, length-drop, ap, arith, Bool-cases, ltb, leb, ◌==◌, ◌&&◌,
}
use hazshield_ingest.Platform.{Platform}
use hazshield_ingest.Types.{StoredReading}
use hazshield_ingest.Warm.Copy.{flush-cases}
use hazshield_ingest.Warm.Database.{Postgres}
use hazshield_ingest.Warm.{
  Event, received, tick, Writer, max_batch_rows, max_buffered, settle_flush, flush, push,
  flush_if_full, shed, step, run,
}

module _ {p : Platform} {g : Postgres} where
  -- Between two rounds. A backoff of zero means that the last flush succeeded.
  pub record IsBounded (w : Writer p g) : Type 0 where
    pub capped : length w.buf ≤ max_buffered
    pub batch : w.backoff_ms ≡ 0 → length w.buf < max_batch_rows
    pub backoff : (w.backoff_ms ≡ 0) ⊎ ((250 ≤ w.backoff_ms) × (w.backoff_ms ≤ 5000))

  settle_flush-IsBounded :
      (w : Writer p g) (out : Option ℕ × g.Db)
      → length w.buf ≤ max_buffered
      → IsBounded (settle_flush g w out)
  unfolding settle_flush
  settle_flush-IsBounded w (some n, db) h = record {
    capped = omega arith;
    batch = λ _. omega arith;
    backoff = inl refl;
  }
  settle_flush-IsBounded w (none, db) h = record {
    capped = h;
    batch = λ z. absurd (ground arith);
    backoff = inr (ground arith, ground arith);
  }

  flush-IsBounded : (w : Writer p g) → IsBounded w → IsBounded (flush g w)
  flush-IsBounded w v =
      flush-cases g IsBounded w (λ _. v) (λ out _. settle_flush-IsBounded w out v.capped)

  -- After a row was pushed: one row over the cap at most, and a full batch if the backoff is zero.
  abbrev Pushed : Writer p g → Type 0
  Pushed w =
      (length w.buf ≤ max_buffered + 1)
      × (w.backoff_ms ≡ 0 → length w.buf ≤ max_batch_rows)
      × ((w.backoff_ms ≡ 0) ⊎ ((250 ≤ w.backoff_ms) × (w.backoff_ms ≤ 5000)))

  -- The same before the rows over the cap are shed.
  abbrev Filled : Writer p g → Type 0
  Filled w =
      (length w.buf ≤ max_buffered + 1)
      × (w.backoff_ms ≡ 0 → length w.buf < max_batch_rows)
      × ((w.backoff_ms ≡ 0) ⊎ ((250 ≤ w.backoff_ms) × (w.backoff_ms ≤ 5000)))

  push-Pushed : (w : Writer p g) (r : StoredReading p) → IsBounded w → Pushed (push g w r)
  unfolding push
  push-Pushed w r v =
      let len = length-append w.buf (r ∷ []) in
      (omega (arith, len, v.capped), λ z. omega (arith, len, v.batch z), v.backoff)

  flush_if_full-Filled : (w : Writer p g) → Pushed w → Filled (flush_if_full g w)
  unfolding flush_if_full
  flush_if_full-Filled w (cap, batch, back) =
      elim (Bool-cases (leb max_batch_rows (length w.buf) && (w.backoff_ms == 0))) [
        | inl full ↦ rw full (
            flush-cases g Filled w (λ e. (cap, λ z. omega (arith, ap length e), back))
              λ out _.
                let b = settle_flush-IsBounded w out (ground (arith, full, batch)) in
                (omega (arith, b.capped), b.batch, b.backoff))
        | inr partial ↦ rw partial (cap, λ z. ground (arith, partial, z), back)
      ]

  shed-IsBounded : (w : Writer p g) → Filled w → IsBounded (shed g w)
  unfolding shed
  shed-IsBounded w (cap, batch, back) = elim (Bool-cases (ltb max_buffered (length w.buf))) [
    | inl over ↦ rw over (record {
      capped = omega (arith, length-drop (length w.buf - max_buffered) w.buf);
      batch = λ z. absurd (ground (arith, batch z, over));
      backoff = back;
    })
    | inr within ↦
        rw within (record { capped = ground (arith, within); batch = batch; backoff = back })
  ]

  pub step-IsBounded : (w : Writer p g) (ev : Event p) → IsBounded w → IsBounded (step g w ev)
  unfolding step
  step-IsBounded w (received r) v =
      let b = shed-IsBounded _ (flush_if_full-Filled _ (push-Pushed w r v)) in
      record { capped = b.capped; batch = b.batch; backoff = b.backoff }
  step-IsBounded w tick v =
      let b = flush-IsBounded w v in
      record { capped = b.capped; batch = b.batch; backoff = b.backoff }

  -- Whatever arrives and however the database fails, between two rounds the buffer holds at most
  -- 5000 rows, fewer than 1000 while the backoff is zero, and the backoff is zero or between 250 and
  -- 5000 milliseconds.
  pub run-IsBounded :
      (w : Writer p g) (evs : List (Event p)) → IsBounded w → IsBounded (run g w evs)
  unfolding run
  run-IsBounded w [] v = v
  run-IsBounded w (ev ∷ evs) v = run-IsBounded (step g w ev) evs (step-IsBounded w ev v)
