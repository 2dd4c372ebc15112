-- ===== src/Warm/Backoff.antt =====
-- An outage of the database as the writer of src/warm.rs sees it from tick to tick: how long it waits
-- before each retry, and how the first success ends it.
use native.Mathlib.Nat.{one-le-pow, two-pow-succ}
use hazshield_ingest.Prelude.{
  ℕ, zero, suc, ◌+◌, ◌*◌, ◌%◌, ◌^◌, ◌≤◌, ◌<◌, ◌≡◌, refl, ◌∙◌, sym, ap, ap₂, subst, none, some, List,
  [], ◌∷◌, length, min, arith,
}
use hazshield_ingest.Platform.{Platform}
use hazshield_ingest.Types.{StoredReading}
use hazshield_ingest.Warm.Database.{Postgres}
use hazshield_ingest.Warm.Outage.{flush_settles}
use hazshield_ingest.Warm.{Event, tick, Writer, clamp, settle_flush, step, run, copy_rows}

-- The wait in milliseconds after `k` failures in a row: 250, 500, 1000, ..., and never over 5000.
abbrev pub backoff_after : ℕ → ℕ
backoff_after zero = 0
backoff_after (suc k) = min 5000 (250 * 2 ^ k)

doubled_once :
    (x : ℕ) → 1 ≤ x → clamp 250 5000 (min 5000 (250 * x) * 2 % 2 ^ 64) ≡ min 5000 (250 * (x + x))
doubled_once x h =
    let fits : min 5000 (250 * x) * 2 % 2 ^ 64 ≡ min 5000 (250 * x) * 2 = omega arith in
    ap (clamp 250 5000) fits ∙ ground (arith, h)

doubled : (k : ℕ) → clamp 250 5000 (backoff_after k * 2 % 2 ^ 64) ≡ backoff_after (suc k)
doubled zero = refl
doubled (suc k) =
    doubled_once (2 ^ k) (one-le-pow k 2 (omega arith))
    ∙ ap (λ n. min 5000 (250 * n)) (sym (two-pow-succ k))

module _ {p : Platform} where
  abbrev pub ticks : ℕ → List (Event p)
  ticks zero = []
  ticks (suc k) = tick ∷ ticks k

module _ {p : Platform} (g : Postgres) where
  -- The database after `k` tries to copy `rows`, and that all of them fail.
  abbrev pub db_after : ℕ → g.Db → List (StoredReading p) → g.Db
  db_after zero d rows = d
  db_after (suc k) d rows = db_after k (copy_rows g d rows).1 rows

  abbrev pub Fails : ℕ → g.Db → List (StoredReading p) → Type 0
  Fails zero d rows = Unit {0}
  Fails (suc k) d rows = ((copy_rows g d rows).0 ≡ none) × Fails k (copy_rows g d rows).1 rows

module _ {p : Platform} {g : Postgres} where
  -- After failures only: everything is still buffered, and each failure is counted.
  record Down (k j : ℕ) (w w' : Writer p g) : Type 0 where
    pub kept : w'.buf ≡ w.buf
    pub waits : w'.backoff_ms ≡ backoff_after (j + k)
    pub failures : w'.metrics.warm_flush_failures_total ≡ w.metrics.warm_flush_failures_total + k
    pub flushed : w'.metrics.warm_flushed_total ≡ w.metrics.warm_flushed_total
    pub tried : w'.db ≡ db_after g k w.db w.buf

  step_fails :
      (j : ℕ) (w : Writer p g)
      → 0 < length w.buf
      → w.backoff_ms ≡ backoff_after j
      → (copy_rows g w.db w.buf).0 ≡ none
      → Down 1 j w (step g w tick)
  unfolding step settle_flush
  step_fails j w h waits e =
      rw (flush_settles w h, e)
        (record {
          kept = refl;
          waits = rw waits (doubled j ∙ ap backoff_after {x = suc j} (omega arith));
          failures = refl;
          flushed = refl;
          tried = refl;
        })

  ticks_fail :
      (k j : ℕ) (w : Writer p g)
      → 0 < length w.buf
      → w.backoff_ms ≡ backoff_after j
      → Fails g k w.db w.buf
      → Down k j w (run g w (ticks k))
  unfolding run
  ticks_fail zero j w h waits fails = record {
    kept = refl;
    waits = waits ∙ ap backoff_after {x = j} (omega arith);
    failures = omega arith;
    flushed = refl;
    tried = refl;
  }
  ticks_fail (suc k) j w h waits (e, fails) =
      let one = step_fails j w h waits e in
      let rest =
        ticks_fail k (suc j) (step g w tick) (subst (λ b. 0 < length b) (sym one.kept) h)
          (one.waits ∙ ap backoff_after {x = j + 1} {y = suc j} (omega arith))
          (subst (λ d. Fails g k d (step g w tick).buf) (sym one.tried)
            (subst (λ b. Fails g k (copy_rows g w.db w.buf).1 b) (sym one.kept) fails)) in
      record {
        kept = rest.kept ∙ one.kept;
        waits = rest.waits ∙ ap backoff_after {x = suc j + k} (omega arith);
        failures = omega (arith, rest.failures, one.failures);
        flushed = rest.flushed ∙ one.flushed;
        tried = rest.tried ∙ ap₂ (λ d b. db_after g k d b) one.tried one.kept;
      }

  step_succeeds :
      (w : Writer p g) (n : ℕ)
      → 0 < length w.buf
      → (copy_rows g w.db w.buf).0 ≡ some n
      → ((step g w tick).buf ≡ [])
        × ((step g w tick).backoff_ms ≡ 0)
        × ((step g w tick).metrics.warm_flushed_total ≡ w.metrics.warm_flushed_total + n)
  unfolding step settle_flush
  step_succeeds w n h e = rw (flush_settles w h, e) (refl, refl, refl)

  -- From a healthy writer with rows in its buffer, `k` ticks whose flushes fail and then one whose
  -- flush succeeds, with no row received between. After the failures the buffer is as it was, nothing
  -- is counted as flushed, each failure is counted, and the wait is 250 ms doubled with each failure
  -- after the first, up to 5000 ms. The success then empties the buffer, ends the wait and counts what
  -- the database counts.
  pub outage_heals :
      (k n : ℕ) (w : Writer p g)
      → 0 < length w.buf
      → w.backoff_ms ≡ 0
      → Fails g k w.db w.buf
      → (copy_rows g (db_after g k w.db w.buf) w.buf).0 ≡ some n
      → let down = run g w (ticks k) in
        let up = step g down tick in
        (down.buf ≡ w.buf)
        × (down.backoff_ms ≡ backoff_after k)
        × (down.metrics.warm_flush_failures_total ≡ w.metrics.warm_flush_failures_total + k)
        × (up.buf ≡ [])
        × (up.backoff_ms ≡ 0)
        × (up.metrics.warm_flushed_total ≡ w.metrics.warm_flushed_total + n)
  outage_heals k n w h healthy fails e =
      let down = run g w (ticks k) in
      let d = ticks_fail k 0 w h healthy fails in
      let copied : (copy_rows g down.db down.buf).0 ≡ some n =
        ap₂ (λ db b. (copy_rows g db b).0) d.tried d.kept ∙ e in
      let (empty, calm, flushed) =
        step_succeeds down n (subst (λ b. 0 < length b) (sym d.kept) h) copied in
      (
        d.kept,
        d.waits ∙ ap backoff_after {x = 0 + k} (omega arith),
        d.failures,
        empty,
        calm,
        flushed ∙ ap (λ m. m + n) d.flushed,
      )
