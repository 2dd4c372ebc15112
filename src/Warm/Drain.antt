-- ===== src/Warm/Drain.antt =====
-- The end of the task of src/warm.rs: once the channel is closed, the loop takes out what is left in it,
-- flushes and ends. The `select!` is biased to the channel, which is always ready then, so the timer is
-- not polled again.
use hazshield_ingest.Prelude.{
  ℕ, zero, suc, ◌<◌, ◌≡◌, refl, ap, inl, inr, Option, none, some, ◌∷◌, map, length, arith,
  Option-cases,
}
use hazshield_ingest.Platform.{Platform}
use hazshield_ingest.Types.{StoredReading}
use hazshield_ingest.Lane.{Lane}
use hazshield_ingest.Lane.Receiver.{Receiver}
use hazshield_ingest.Warm.{received, Writer, flush, step, run, spawn_writer}
use hazshield_ingest.Warm.Database.{Postgres}

module _ {p : Platform} (g : Postgres) {l : Lane (StoredReading p)} (rx : Receiver l) where
  -- `recv` returns a row, or `None`: then the last flush, and `break`.
  pub drain : ℕ → l.Chan → Writer p g → Option (Writer p g)
  drain zero c w = none
  drain (suc fuel) c w = elim (rx.recv c) [
    | none ↦ some (flush g w)
    | some (r, c') ↦ drain fuel c' (step g w (received r))
  ]

  -- On a closed channel the loop ends after one round for each row that is left in it and a last one,
  -- and it ends as `spawn_writer` does on exactly those rows, in order.
  pub drain-spawn_writer :
      (fuel : ℕ) (c : l.Chan) (w : Writer p g)
      → length (rx.pending c) < fuel
      → drain fuel c w ≡ some (spawn_writer g w (map received (rx.pending c)))
  unfolding drain spawn_writer run
  drain-spawn_writer zero c w h = elim h [ ]
  drain-spawn_writer (suc fuel) c w h = elim (Option-cases (rx.recv c)) [
    | inl closed ↦ rw (closed, drain) (rw (rx.recv_none c closed) refl)
    | inr ((r, c'), takes) ↦
        let left : rx.pending c ≡ r ∷ rx.pending c' = (rx.recv_some c r c' takes).1 in
        rw (takes, drain)
          (rw left
            (drain-spawn_writer fuel c' (step g w (received r)) (omega (arith, ap length left))))
  ]
